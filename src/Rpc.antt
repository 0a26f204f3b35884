-- ===== src/Rpc.antt =====
-- json.h: the accessors through which the node's messages are read. A json_parse_error is `thrown`; a
-- `fault` is an assertion of rapidjson or an access outside of an array, after which nothing of the
-- program is promised. rapidjson itself is a parameter.
pub mod Laws
pub mod Documents
use epic_poold.Base.{
  ℕ, zero, suc, ◌+◌, ◌-◌, ◌*◌, ◌%◌, ◌^◌, Bool, true, false, ◌&&◌, ◌||◌, Option, none, some, List,
  [], ◌∷◌, ltb, leb, ◌==◌, if◌then◌else◌, length, get_elem?, codes, same_text, c_string,
}

pub data Try (A : Type 0) : Type 0 where
  ok : A → Try A
  thrown fault : Try A

infixl 5 ◌>>=◌
abbrev pub ◌>>=◌ : {A B : Type 0} → Try A → (A → Try B) → Try B
ok a >>= f = f a
thrown >>= f = thrown
fault >>= f = fault

-- A pointer that is tested, and one that is followed.
abbrev pub or_thrown : {A : Type 0} → Option A → Try A
or_thrown none = thrown
or_thrown (some a) = ok a

abbrev pub or_fault : {A : Type 0} → Option A → Try A
or_fault none = fault
or_fault (some a) = ok a

-- What the accessors use of rapidjson. `parse` gives none on a parse error; `elements` are the
-- entries of an array, `find_member` the member of an object.
pub record JsonValues (V : Type 0) : Type 0 where
  pub parse : List ℕ → Option V
  pub is_null : V → Bool
  pub is_object : V → Bool
  pub is_array : V → Bool
  pub is_string : V → Bool
  pub is_int : V → Bool
  pub is_uint : V → Bool
  pub is_uint64 : V → Bool
  pub get_string : V → List ℕ
  pub get_uint : V → ℕ
  pub get_uint64 : V → ℕ
  pub elements : V → List V
  pub find_member : V → List ℕ → Option V

-- strcmp with a literal.
abbrev pub reads_as : List ℕ → List ℕ → Bool
reads_as text literal = same_text (c_string text) literal

-- strtoull in base 10: white space, a sign, and digits up to the first other character.
abbrev is_space : ℕ → Bool
is_space c = c == 32 || (leb 9 c && leb c 13)

abbrev skip_spaces : List ℕ → List ℕ
skip_spaces [] = []
skip_spaces (c ∷ text) = let later = skip_spaces text in if is_space c then later else c ∷ text

abbrev pub digits_value : ℕ → List ℕ → ℕ
digits_value value [] = value
digits_value value (c ∷ text) =
    let longer = digits_value (10 * value + (c - b'0')) text in
    if leb b'0' c && leb c b'9' then longer else value

abbrev clamped : Bool → ℕ → ℕ
clamped negated value =
    if ltb (2 ^ 64 - 1) value
    then 2 ^ 64 - 1
    else if negated
    then (2 ^ 64 - value) % 2 ^ 64
    else value

abbrev signed_value : List ℕ → ℕ
signed_value [] = 0
signed_value (c ∷ text) =
    if c == b'-'
    then clamped true (digits_value 0 text)
    else if c == b'+'
    then clamped false (digits_value 0 text)
    else clamped false (digits_value 0 (c ∷ text))

unfoldable pub strtoull : List ℕ → ℕ
strtoull text = signed_value (skip_spaces (c_string text))

-- `endPtr` is set by every call, so that neither of the two throws.
unfoldable pub json_strtoull : List ℕ → Try ℕ
unfolding strtoull
json_strtoull text = ok (strtoull text)

unfoldable pub json_strtoul : List ℕ → Try ℕ
unfolding strtoull
json_strtoul text = ok (strtoull text % 2 ^ 32)

module _ {V : Type 0} (json : JsonValues V) where
  -- FindMember asserts that it has an object.
  unfoldable pub get_object_member : V → List ℕ → Try (Option V)
  get_object_member obj key = if json.is_object obj then ok (json.find_member obj key) else fault

  unfoldable pub get_object_member_t : V → List ℕ → Try V
  unfolding get_object_member
  get_object_member_t obj key = do member ← get_object_member obj key; or_thrown member

  unfoldable pub get_array : V → Try (List V)
  get_array obj = if json.is_array obj then ok (json.elements obj) else thrown

  -- GetArray with its second argument.
  unfoldable pub get_array_of : V → ℕ → Try (List V)
  unfolding get_array
  get_array_of obj exp_len = do
    ret ← get_array obj
    if length ret == exp_len then ok ret else thrown

  -- operator[], which asserts that the index is in range.
  abbrev pub at : List V → ℕ → Try V
  at ret i = or_fault (get_elem? ret i)

  unfoldable pub get_string : V → Try (List ℕ)
  get_string obj = if json.is_string obj then ok (json.get_string obj) else thrown

  unfoldable pub get_uint64 : V → Try ℕ
  get_uint64 obj = if json.is_uint64 obj then ok (json.get_uint64 obj) else thrown

  unfoldable pub get_uint : V → Try ℕ
  get_uint obj = if json.is_uint obj then ok (json.get_uint obj) else thrown

  -- none is the -1 of a message that the node sends on its own.
  unfoldable pub get_json_call_id : V → Try (Option ℕ)
  unfolding get_object_member json_strtoul
  get_json_call_id obj = do
    member ← get_object_member obj (codes "id")
    v ← or_thrown member
    if json.is_string v
        then (if reads_as (json.get_string v) (codes "Stratum")
            then ok none
            else do id ← json_strtoul (json.get_string v); ok (some id))
        else if json.is_uint v
        then ok (some (json.get_uint v))
        else thrown

  unfoldable pub get_json_uint64 : V → List ℕ → Try ℕ
  unfolding get_object_member json_strtoull
  get_json_uint64 obj key = do
    member ← get_object_member obj key
    v ← or_thrown member
    if json.is_uint64 v
        then ok (json.get_uint64 v)
        else if json.is_string v
        then json_strtoull (json.get_string v)
        else thrown

  unfoldable pub get_json_uint : V → List ℕ → Try ℕ
  unfolding get_object_member json_strtoul
  get_json_uint obj key = do
    member ← get_object_member obj key
    v ← or_thrown member
    if json.is_uint v
        then ok (json.get_uint v)
        else if json.is_string v
        then json_strtoul (json.get_string v)
        else thrown

  -- The text with its length.
  unfoldable pub get_json_string : V → List ℕ → Try (List ℕ)
  unfolding get_object_member
  get_json_string obj key = do
    member ← get_object_member obj key
    v ← or_thrown member
    if json.is_string v then ok (json.get_string v) else thrown
