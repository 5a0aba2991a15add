-- ===== src/Auth/Claims.antt =====
-- internal/auth/auth.go: what the claims of a token say of its account. A claim is a JSON value, as
-- encoding/json decodes it: an object is the list of its fields.
use prober.Prelude.{
  ℕ, Bool, true, false, List, [], ◌∷◌, Option, none, some, ltb, ◌==◌, ◌||◌, if◌then◌else◌,
}
use prober.Prelude.Maps.{Text, codes, text_eq, ◌=?◌}
use prober.Auth.Config.{or_default}
use prober.Trace.Stats.{Float64}
use prober.Backend.Config.{is_blank}

mutual
  pub data Json : Type 0 where
    json_null : Json
    json_bool : Bool → Json
    json_number : Float64 → Json
    json_text : Text → Json
    json_list : JsonList → Json
    json_object : Fields → Json

  pub data JsonList : Type 0 where
    no_items : JsonList
    item : Json → JsonList → JsonList

  pub data Fields : Type 0 where
    no_fields : Fields
    field : Text → Json → Fields → Fields

-- A read of a key.
abbrev pub field_at : Text → Fields → Option Json
field_at k no_fields = none
field_at k (field name v rest) = if name =? k then some v else field_at k rest

abbrev pub names_of : Fields → List Text
names_of no_fields = []
names_of (field name v rest) = name ∷ names_of rest

-- Go's order of strings, byte by byte.
abbrev pub leb_text : Text → Text → Bool
leb_text [] t = true
leb_text (a ∷ s) [] = false
leb_text (a ∷ s) (b ∷ t) = if ltb a b then true else if a == b then leb_text s t else false

abbrev pub insert_sorted : Text → List Text → List Text
insert_sorted t [] = t ∷ []
insert_sorted t (s ∷ sorted) = if leb_text t s then t ∷ s ∷ sorted else s ∷ insert_sorted t sorted

unfoldable pub sorted_names : List Text → List Text
sorted_names [] = []
sorted_names (t ∷ names) = insert_sorted t (sorted_names names)

abbrev pub texts_of : JsonList → List Text
texts_of no_items = []
texts_of (item (json_text t) rest) = t ∷ texts_of rest
texts_of (item v rest) = texts_of rest

unfoldable pub as_strings : Json → List Text
unfolding sorted_names
as_strings (json_list items) = texts_of items
as_strings (json_object fields) = sorted_names (names_of fields)
as_strings (json_text t) = if is_blank t then [] else t ∷ []
as_strings v = []

abbrev pub str : Option Json → Text
str (some (json_text t)) = t
str v = []

abbrev pub dot : ℕ
dot = 46

abbrev pub add_to_first : ℕ → List Text → List Text
add_to_first c [] = (c ∷ []) ∷ []
add_to_first c (part ∷ parts) = (c ∷ part) ∷ parts

-- `strings.Split(path, ".")`.
abbrev pub split_dots : Text → List Text
split_dots [] = [] ∷ []
split_dots (c ∷ cs) =
    let parts = split_dots cs in if c == dot then [] ∷ parts else add_to_first c parts

-- The walk of a dotted path; `none` is the early return.
unfoldable pub walk : List Text → Option Json → Option Json
walk [] cur = cur
walk (part ∷ parts) (some (json_object fields)) = walk parts (field_at part fields)
walk (part ∷ parts) cur = none

abbrev pub strings_at : Option Json → List Text
strings_at none = []
strings_at (some v) = as_strings v

abbrev pub values_or_walk : Fields → Text → Option Json → List Text
values_or_walk claims path (some v) = as_strings v
values_or_walk claims path none = strings_at (walk (split_dots path) (some (json_object claims)))

unfoldable pub claim_values : Fields → Text → List Text
unfolding as_strings walk
claim_values claims path =
    if is_blank path then [] else values_or_walk claims path (field_at path claims)

-- `slices.Contains`.
abbrev pub contains : List Text → Text → Bool
contains [] t = false
contains (s ∷ texts) t = s =? t || contains texts t

-- What `userFrom` makes of a token's subject and claims.
pub record User : Type 0 where
  pub subject : Text
  pub email : Text
  pub name : Text
  pub groups : List Text

unfoldable pub user_from : Text → Text → Fields → User
unfolding claim_values
user_from groups_claim subject claims = record {
  subject = subject;
  email = str (field_at (codes "email") claims);
  name =
      or_default
        (or_default (str (field_at (codes "name") claims))
          (str (field_at (codes "preferred_username") claims)))
        (str (field_at (codes "email") claims));
  groups = claim_values claims groups_claim;
}

abbrev pub any_allowed : List Text → List Text → Bool
any_allowed allowed [] = false
any_allowed allowed (g ∷ groups) = contains allowed g || any_allowed allowed groups

-- Whether `authorize` returns nil.
unfoldable pub authorize : List Text → User → Bool
authorize [] u = true
authorize (a ∷ allowed) u = any_allowed (a ∷ allowed) u.groups
