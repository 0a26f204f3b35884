-- ===== src/Log/Message.antt =====
-- log.hpp, log: what a message leaves in the file.
use epic_poold.Base.{
  ℕ, ◌≤◌, ◌<◌, ◌^◌, ◌≡◌, ◌⊎◌, refl, ◌∙◌, ap, inl, inr, Bool, true, false, some, List, [], ◌∷◌, ◌++◌,
  arith, ltb, if◌then◌else◌, length, codes, c_string, All, append_assoc, Bool-cases,
}
use epic_poold.Codec.Spec.{hex_text}
use epic_poold.Vector32.{IsVector}
use epic_poold.Client.Job.{take_all}
use epic_poold.Client.Job.{hex_of-hex_text}
use epic_poold.ItoaLjust.Spec.{IsDecimal}
use epic_poold.ItoaLjust.Unsigned.{itoa_u32-Writes}
use epic_poold.ItoaLjust.Wide.{itoa_u64-Returns}
use epic_poold.ItoaLjust.Signed.{signed, IsSignedDecimal, itoa_i32-SignedText, itoa_i64-SignedText}
use epic_poold.Jconf.{LogLevel}
use epic_poold.Log.{
  level_number, get_default_colour, colour_codes, Element, of_text, of_char, of_size, of_int64,
  of_uint32, of_int32, of_v32, Log, Reopening, set_colour, reset_colour, check_sighup, element_text,
  in_buffer, print_element, print_all, print_message, log,
}

-- An argument that its type can hold.
abbrev pub Typed : Element → Type 0
Typed (of_text s) = Unit
Typed (of_char c) = Unit
Typed (of_size n) = n < 2 ^ 64
Typed (of_int64 n) = n < 2 ^ 64
Typed (of_uint32 n) = n < 2 ^ 32
Typed (of_int32 n) = n < 2 ^ 32
Typed (of_v32 v) = IsVector v

-- The text of an argument: a number's usual decimal text, with its sign; a hash in lower-case hexadecimal.
abbrev pub Spells : Element → List ℕ → Type 0
Spells (of_text s) text = text ≡ c_string s
Spells (of_char c) text = text ≡ c ∷ []
Spells (of_size n) text = IsDecimal n text
Spells (of_int64 n) text = IsSignedDecimal (signed 64 n) text
Spells (of_uint32 n) text = IsDecimal n text
Spells (of_int32 n) text = IsSignedDecimal (signed 32 n) text
Spells (of_v32 v) text = text ≡ hex_text v.bytes

-- The texts of the arguments behind each other, and a new line.
abbrev pub SpellsAll : List Element → List ℕ → Type 0
SpellsAll [] text = text ≡ 10 ∷ []
SpellsAll (arg ∷ args) text =
    (first rest : List ℕ) × (text ≡ first ++ rest) × Spells arg first × SpellsAll args rest

held : (text : List ℕ) (m : ℕ) → length text ≤ m → m < 32 → in_buffer text ≡ some text
held text m short room = let fits : ltb (length text) 32 ≡ true = ground arith in rw fits refl

element_text-Spells :
    (fuel d : ℕ) (arg : Element)
    → 3 ≤ fuel
    → Typed arg
    → (text : List ℕ) × (element_text fuel d arg ≡ some text) × Spells arg text
unfolding element_text
element_text-Spells fuel d (of_text s) enough typed = (c_string s, refl, refl)
element_text-Spells fuel d (of_char c) enough typed = (c ∷ [], refl, refl)
element_text-Spells fuel d (of_size n) enough typed =
    let (r, e, (text, same, spelled, short)) = itoa_u64-Returns fuel n d [] enough typed in
    (text, rw (e, same) (held text 20 short (omega arith)), spelled)
element_text-Spells fuel d (of_int64 n) enough typed =
    let (r, e, (text, same, spelled, short)) = itoa_i64-SignedText fuel n d [] enough typed in
    (text, rw (e, same) (held text 21 short (omega arith)), spelled)
element_text-Spells fuel d (of_uint32 n) enough typed =
    let (text, same, spelled, short) = itoa_u32-Writes n d [] typed in
    (text, rw same (held text 10 short (omega arith)), spelled)
element_text-Spells fuel d (of_int32 n) enough typed =
    let (text, same, spelled, short) = itoa_i32-SignedText n d [] typed in
    (text, rw same (held text 11 short (omega arith)), spelled)
element_text-Spells fuel d (of_v32 v) enough typed = (
  hex_text v.bytes,
  hex_of-hex_text v.bytes 32 65 typed.1 (omega (arith, typed.0)) (omega arith) (omega arith)
      ∙ ap (λ l. some (hex_text l)) (take_all 32 v.bytes typed.0),
  refl,
)

-- The log with a text in its file.
abbrev pub filled : Log → List ℕ → Log
filled l written = record l { file = some written }

print_all-Spells :
    (fuel d : ℕ) (args : List Element) (l : Log) (written : List ℕ)
    → 3 ≤ fuel
    → All Typed args
    → (text : List ℕ) × (print_all fuel d args (filled l written)
        ≡ some (filled l (written ++ text)))
      × SpellsAll args text
unfolding print_all
print_all-Spells fuel d [] l written enough typed = (10 ∷ [], refl, refl)
print_all-Spells fuel d (arg ∷ args) l written enough (first_typed, typed) =
    let (first, e, spelled) = element_text-Spells fuel d arg enough first_typed in
    let (rest, e', others) = print_all-Spells fuel d args l (written ++ first) enough typed in
    (
      first ++ rest,
      rw (print_element, e) (e' ∙ ap (λ r. some (filled l r)) (append_assoc written first rest)),
      (first, rest, refl, spelled, others),
    )

-- What goes around a message on a terminal.
abbrev pub dressed : Log → LogLevel → List ℕ → List ℕ
dressed l lvl message =
    if l.on_stdout
    then colour_codes (get_default_colour lvl) ++ message ++ 27 ∷ codes "[0m"
    else message

print_message-Spells :
    (fuel d : ℕ) (stamp : List ℕ) (lvl : LogLevel) (args : List Element) (l : Log)
    (written : List ℕ) (on_stdout : Bool)
    → 3 ≤ fuel
    → All Typed args
    → let l' : Log = record l { on_stdout = on_stdout } in
      (text : List ℕ) × SpellsAll args text
      × (print_message fuel d stamp (get_default_colour lvl) args (filled l' written)
          ≡ some (filled l' (written ++ dressed l' lvl (stamp ++ text))))
unfolding print_message
print_message-Spells fuel d stamp lvl args l written true enough typed =
    let colour : List ℕ = colour_codes (get_default_colour lvl) in
    let l' : Log = record l { on_stdout = true } in
    let (text, e, spelled) =
      print_all-Spells fuel d args l' ((written ++ colour) ++ stamp) enough typed in
    (
      text,
      spelled,
      rw (print_message, set_colour, e, reset_colour)
          (ap (λ r. some (filled l' r)) (behind written colour stamp text)),
    )
  where
    behind :
        (written colour stamp text : List ℕ)
        → (((written ++ colour) ++ stamp) ++ text) ++ 27 ∷ codes "[0m"
          ≡ written ++ (colour ++ (stamp ++ text) ++ 27 ∷ codes "[0m")
    behind written colour stamp text =
        rw (append_assoc, append_assoc, append_assoc, append_assoc, append_assoc) refl
print_message-Spells fuel d stamp lvl args l written false enough typed =
    let l' : Log = record l { on_stdout = false } in
    let (text, e, spelled) = print_all-Spells fuel d args l' (written ++ stamp) enough typed in
    (
      text,
      spelled,
      rw (print_message, set_colour, e, reset_colour)
          (ap (λ r. some (filled l' r)) (append_assoc written stamp text)),
    )

-- A message below the current level changes nothing, not even a pending signal. Any other message first has
-- the file opened again if there was a signal, and if there then is a file, is written behind what that
-- holds: on a terminal in the colour of its level, in it the time, the texts of its arguments and a new line,
-- and no buffer overflows. The arguments are of their types, and itoa has three calls.
pub log-Spells :
    (fuel d : ℕ) (again : Reopening) (stamp : List ℕ) (lvl : LogLevel) (args : List Element)
    (l l' : Log) (written : List ℕ)
    → 3 ≤ fuel
    → All Typed args
    → check_sighup again l ≡ some l'
    → l'.file ≡ some written
    → ((level_number lvl < l.current_level)
        × (log fuel d again stamp lvl (get_default_colour lvl) args l ≡ some l))
      ⊎ ((l.current_level ≤ level_number lvl)
          × (text : List ℕ) × SpellsAll args text
          × (log fuel d again stamp lvl (get_default_colour lvl) args l
              ≡ some (filled l' (written ++ dressed l' lvl (stamp ++ text)))))
unfolding log
log-Spells fuel d again stamp lvl args l l' written enough typed ready file =
    elim (Bool-cases (ltb (level_number lvl) l.current_level)) [
      | inl below ↦ inl (ground arith, rw (log, below) refl)
      | inr reaches ↦
          let (text, spelled, e) =
            print_message-Spells fuel d stamp lvl args l' written l'.on_stdout enough typed in
          inr (ground arith, text, spelled, rw (log, reaches, opened) e)
    ]
  where
    opened : check_sighup again l ≡ some (filled l' written)
    opened = ready ∙ ap (λ f. some (record l' { file = f })) file
