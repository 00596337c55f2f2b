-- ===== src/Platform/Json.antt =====
-- userver's `formats::json`. A document is a value of the type below; its text form is the library's.
use Prim.Native.String.{String}
use text.Mathlib.Text.{◌==◌ as str_eq}
use otus_highload_architect.Prelude.{
  Bool, true, false, Text, List, [], ◌∷◌, Option, none, some, ◌≡◌, refl, if◌then◌else◌, Outcome, ok,
  throw, bad_json, or_throw,
}
use otus_highload_architect.Prelude.Int.{ℤ}

mutual
  pub data Json : Type 0 where
    null : Json
    str : Text → Json
    num : ℤ → Json
    boolean : Bool → Json
    arr : Items → Json
    obj : Fields → Json

  pub data Items : Type 0 where
    nil : Items
    cons : Json → Items → Items

  pub data Fields : Type 0 where
    end : Fields
    field : String → Json → Fields → Fields

-- `builder["k"] = v` for each pair in turn, and `PushBack` of each item in turn.
abbrev pub fields : List (String × Json) → Fields
fields [] = end
fields ((k, v) ∷ r) = field k v (fields r)

abbrev pub make_object : List (String × Json) → Json
make_object l = obj (fields l)

abbrev pub items : List Json → Items
items [] = nil
items (v ∷ r) = cons v (items r)

abbrev pub make_array : List Json → Json
make_array l = arr (items l)

abbrev field_at : String → Fields → Option Json
field_at k end = none
field_at k (field j v r) = if str_eq j k then some v else field_at k r

-- `json["k"]` where it is there.
abbrev pub member : String → Json → Option Json
member k (obj f) = field_at k f
member k null = none
member k (str t) = none
member k (num n) = none
member k (boolean b) = none
member k (arr l) = none

-- `HasMember`
abbrev pub has_member : String → Json → Bool
has_member k j = elim (member k j) [ some v ↦ true | none ↦ false ]

-- `As<std::string>()` of a member: it throws on a missing member and on any other kind of value.
abbrev pub as_text : Option Json → Outcome Text
as_text (some (str t)) = ok t
as_text _ = throw bad_json

abbrev pub text_at : String → Json → Outcome Text
text_at k j = as_text (member k j)

-- The text form: `ToString`, and `FromString`, which throws on a malformed text (`none`).
pub record JsonText : Type 1 where
  pub Document : Type 0
  pub to_string : Json → Document
  pub from_string : Document → Option Json
  pub from_string-to_string : (j : Json) → from_string (to_string j) ≡ some j

abbrev pub parse : (t : JsonText) → t.Document → Outcome Json
parse t d = or_throw (t.from_string d) bad_json

-- For tests: a document stands for itself.
abbrev pub plain_json : JsonText
plain_json = record {
  Document = Json;
  to_string = λ j. j;
  from_string = λ j. some j;
  from_string-to_string = λ j. refl;
}
