-- ===== src/Content/Taxonomy.antt =====
-- internal/taxonomy/taxonomy.go: the words of the content tree. A Go string type is the string here, since
-- any text can stand in a manifest.
use interviews.Base.{Bool, true, false, ◌&&◌, ◌||◌, List, [], ◌∷◌, Str, codes, elem, leb, ◌=?◌}

abbrev pub debugging : Str
debugging = codes "debugging"

abbrev pub take_home : Str
take_home = codes "takehome"

-- `Types`
abbrev pub types : List Str
types = debugging ∷ take_home ∷ codes "sysdesign" ∷ []

-- `Flavors`
abbrev pub flavors : List Str
flavors = codes "kubernetes" ∷ codes "compose-linux" ∷ []

-- `Classes`
abbrev pub classes : List Str
classes =
    codes "constrained-systems"
    ∷ codes "legacy-rescue"
    ∷ codes "underspecified-product"
    ∷ codes "optimization-ladder"
    ∷ []

-- `Disciplines`
abbrev pub disciplines : List Str
disciplines =
    codes "systems"
    ∷ codes "infra"
    ∷ codes "data-eng"
    ∷ codes "ai-ml"
    ∷ codes "comp-bio"
    ∷ codes "physics"
    ∷ codes "stats"
    ∷ codes "signals"
    ∷ []

-- `Levels`
abbrev pub levels : List Str
levels = codes "entry" ∷ codes "mid" ∷ codes "senior" ∷ codes "staff" ∷ codes "principal" ∷ []

unfoldable pub valid_type : Str → Bool
valid_type v = elem v types

unfoldable pub valid_flavor : Str → Bool
valid_flavor v = elem v flavors

unfoldable pub valid_class : Str → Bool
valid_class v = elem v classes

unfoldable pub valid_discipline : Str → Bool
valid_discipline v = elem v disciplines

unfoldable pub valid_level : Str → Bool
valid_level v = elem v levels

-- The rest of `idRe` after a character: `true` for a word that has begun.
unfoldable pub id_rest : Bool → Str → Bool
id_rest began [] = began
id_rest began (c ∷ cs) =
    let word = id_rest true cs in
    let dash = id_rest false cs in
    ((((leb 97 c && leb c 122) || (leb 48 c && leb c 57)) && word)) || (began && (c =? 45) && dash)

-- `ValidID`
unfoldable pub valid_id : Str → Bool
unfolding id_rest
valid_id s = id_rest false s
