-- ===== src/Rpc/Documents.antt =====
-- The documents of the runs on concrete input, with the functions of a parser.
use epic_poold.Base.{
  ℕ, ◌^◌, Bool, true, false, Option, none, some, List, [], ◌∷◌, ltb, if◌then◌else◌, same_text,
}
use epic_poold.Rpc.{JsonValues}

-- A document.
mutual
  pub data Value : Type 0 where
    null : Value
    boolean : Bool → Value
    number : ℕ → Value
    text : List ℕ → Value
    array : Values → Value
    object : Members → Value

  pub data Values : Type 0 where
    end : Values
    entry : Value → Values → Values

  pub data Members : Type 0 where
    close : Members
    member : List ℕ → Value → Members → Members

unfoldable pub values : Values → List Value
values end = []
values (entry v more) = v ∷ values more

unfoldable pub find : Members → List ℕ → Option Value
find close key = none
find (member k v more) key = let later = find more key in if same_text k key then some v else later

abbrev pub is_null : Value → Bool
is_null null = true
is_null _ = false

abbrev pub is_object : Value → Bool
is_object (object members) = true
is_object _ = false

abbrev pub is_array : Value → Bool
is_array (array entries) = true
is_array _ = false

abbrev pub is_string : Value → Bool
is_string (text s) = true
is_string _ = false

abbrev pub is_number : Value → ℕ → Bool
is_number (number n) bound = ltb n bound
is_number _ bound = false

abbrev pub string_of : Value → List ℕ
string_of (text s) = s
string_of _ = []

abbrev pub number_of : Value → ℕ
number_of (number n) = n
number_of _ = 0

abbrev pub elements_of : Value → List Value
elements_of (array entries) = values entries
elements_of _ = []

abbrev pub member_of : Value → List ℕ → Option Value
member_of (object members) key = find members key
member_of _ key = none

-- A parser that has read this document.
abbrev pub json : Value → JsonValues Value
json doc = record {
  parse = λ s. some doc;
  is_null = is_null;
  is_object = is_object;
  is_array = is_array;
  is_string = is_string;
  is_int = λ v. is_number v (2 ^ 31);
  is_uint = λ v. is_number v (2 ^ 32);
  is_uint64 = λ v. is_number v (2 ^ 64);
  get_string = string_of;
  get_uint = number_of;
  get_uint64 = number_of;
  elements = elements_of;
  find_member = member_of;
}
