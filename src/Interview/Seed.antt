-- ===== src/Interview/Seed.antt =====
-- Seeds of internal/interview/interview.go: `ValidSeed` and the words that `NewSeed` draws from.
pub mod Valid
use interviews.Base.{
  ℕ, ◌≡◌, refl, Bool, true, false, ◌&&◌, ◌||◌, not, List, [], ◌∷◌, ◌++◌, Str, codes, ◌==◌, elem,
  length, ltb, leb, ◌=?◌, Result, ok, err, if◌then◌else◌, map,
}

abbrev pub state_prefix : Str
state_prefix = codes "state"

abbrev pub tarball_prefix : Str
tarball_prefix = codes "tarballs"

abbrev pub reserved_seeds : List Str
reserved_seeds = state_prefix ∷ tarball_prefix ∷ []

pub data SeedError : Type 0 where
  empty_seed : SeedError
  reserved : Str → SeedError
  too_long : Str → SeedError
  bad_character : Str → SeedError

abbrev pub is_seed_char : ℕ → Bool
is_seed_char r = (leb b'a' r && leb r b'z') || (leb b'0' r && leb r b'9') || r =? b'-'

-- The loop over the runes: a byte of a longer rune is refused as the rune is.
unfoldable pub check_chars : Str → Str → Result SeedError (Unit {0})
check_chars seed [] = ok tt
check_chars seed (r ∷ rest) =
    let more = check_chars seed rest in if is_seed_char r then more else err (bad_character seed)

-- `ValidSeed`
unfoldable pub valid_seed : Str → Result SeedError (Unit {0})
unfolding check_chars
valid_seed seed =
    if seed == []
    then err empty_seed
    else if elem seed reserved_seeds
    then err (reserved seed)
    else if ltb 64 (length seed)
    then err (too_long seed)
    else check_chars seed seed

unfoldable pub adjectives : List Str
adjectives =
    codes "amber"
    ∷ codes "brisk"
    ∷ codes "calm"
    ∷ codes "clear"
    ∷ codes "curious"
    ∷ codes "eager"
    ∷ codes "early"
    ∷ codes "fair"
    ∷ codes "gentle"
    ∷ codes "glad"
    ∷ codes "keen"
    ∷ codes "kind"
    ∷ codes "level"
    ∷ codes "lucid"
    ∷ codes "mellow"
    ∷ codes "merry"
    ∷ codes "noble"
    ∷ codes "patient"
    ∷ codes "plain"
    ∷ codes "prompt"
    ∷ codes "quiet"
    ∷ codes "rapid"
    ∷ codes "ready"
    ∷ codes "solid"
    ∷ codes "steady"
    ∷ codes "stern"
    ∷ codes "sunny"
    ∷ codes "swift"
    ∷ codes "tidy"
    ∷ codes "true"
    ∷ codes "warm"
    ∷ codes "wise"
    ∷ []

unfoldable pub nouns : List Str
nouns =
    codes "badger"
    ∷ codes "bison"
    ∷ codes "cedar"
    ∷ codes "comet"
    ∷ codes "crane"
    ∷ codes "delta"
    ∷ codes "eagle"
    ∷ codes "ember"
    ∷ codes "falcon"
    ∷ codes "ferry"
    ∷ codes "harbor"
    ∷ codes "heron"
    ∷ codes "ibex"
    ∷ codes "jetty"
    ∷ codes "kestrel"
    ∷ codes "lagoon"
    ∷ codes "lantern"
    ∷ codes "marlin"
    ∷ codes "meadow"
    ∷ codes "onyx"
    ∷ codes "osprey"
    ∷ codes "otter"
    ∷ codes "quarry"
    ∷ codes "raven"
    ∷ codes "ridge"
    ∷ codes "sable"
    ∷ codes "shale"
    ∷ codes "sparrow"
    ∷ codes "summit"
    ∷ codes "tundra"
    ∷ codes "walrus"
    ∷ codes "willow"
    ∷ []

abbrev pub dash : ℕ
dash = b'-'

-- `fmt.Sprintf("%s-%s-%s", adjective, noun, stamp)`
unfoldable pub seed_of : Str → Str → Str → Str
seed_of adjective noun stamp = adjective ++ dash ∷ (noun ++ dash ∷ stamp)
