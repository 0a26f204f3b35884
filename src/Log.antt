-- ===== src/Log.antt =====
-- log.hpp, log.cpp, loglevels.hpp: the log. `none` is a call on a null FILE, or a write past a buffer. The
-- mutex is held through the whole of `log`, so that a message is one step.
pub mod Message
pub mod Calls
pub mod Tests
use epic_poold.Base.{
  ℕ, zero, suc, Bool, true, false, Option, none, some, List, [], ◌∷◌, ◌++◌, ltb, if◌then◌else◌,
  length, codes, c_string,
}
use epic_poold.Codec.{◌>>=◌}
use epic_poold.Vector32.{V32}
use epic_poold.ItoaLjust.{itoa_u32, itoa_u64, itoa_i32, itoa_i64}
use epic_poold.Client.{hex_of}
use epic_poold.Jconf.{LogLevel, error, warn, info, debug_hi, debug_lo, invalid}

-- The number of a level.
abbrev pub level_number : LogLevel → ℕ
level_number error = 5
level_number warn = 4
level_number info = 3
level_number debug_hi = 2
level_number debug_lo = 1
level_number invalid = 0

pub data Colour : Type 0 where
  red green blue yellow cyan magenta white plain : Colour

abbrev pub get_default_colour : LogLevel → Colour
get_default_colour error = red
get_default_colour warn = yellow
get_default_colour info = plain
get_default_colour debug_hi = plain
get_default_colour debug_lo = plain
get_default_colour invalid = plain

-- The escape sequences.
abbrev pub colour_codes : Colour → List ℕ
colour_codes red = 27 ∷ codes "[1;31m"
colour_codes green = 27 ∷ codes "[1;32m"
colour_codes yellow = 27 ∷ codes "[1;33m"
colour_codes blue = 27 ∷ codes "[1;34m"
colour_codes magenta = 27 ∷ codes "[1;35m"
colour_codes cyan = 27 ∷ codes "[1;36m"
colour_codes white = 27 ∷ codes "[1;37m"
colour_codes plain = 27 ∷ codes "[0m"

-- An argument of `log`, by the overload of print_element that takes it; an integer is its bit pattern.
pub data Element : Type 0 where
  of_text : List ℕ → Element
  of_char of_size of_int64 of_uint32 of_int32 : ℕ → Element
  of_v32 : V32 → Element

-- `file` is what was written to hFile since it was opened, none for a null one, and `closed` is what the
-- files before it hold. Nothing sets current_level, so that it holds any number.
pub record Log : Type 0 where
  pub current_level : ℕ
  pub sighup : Bool
  pub file : Option (List ℕ)
  pub on_stdout : Bool
  pub closed : List (List ℕ)

-- What the configuration and the system answer when the file is opened again.
pub record Reopening : Type 0 where
  pub daemonize : Bool
  pub opens : Bool

-- The constructor; `opens` tells whether fopen succeeds.
unfoldable pub open_log : ℕ → List ℕ → Bool → Log
open_log current_level log_file opens =
    let silent : Log = record {
      current_level = current_level;
      sighup = false;
      file = some [];
      on_stdout = true;
      closed = [];
    } in
    elim (c_string log_file) [
      | [] ↦ silent
      | c ∷ name ↦ record silent { on_stdout = false; file = if opens then some [] else none }
    ]

abbrev pub on_sighup : Log → Log
on_sighup l = record l { sighup = true }

unfoldable pub fputs : List ℕ → Log → Option Log
fputs s l = do written ← l.file; some (record l { file = some (written ++ s) })

unfoldable pub set_colour : Colour → Log → Option Log
unfolding fputs
set_colour cl l = if l.on_stdout then fputs (colour_codes cl) l else some l

unfoldable pub reset_colour : Log → Option Log
unfolding fputs
reset_colour l = if l.on_stdout then fputs (27 ∷ codes "[0m") l else some l

unfoldable pub reopen_file : Reopening → Log → Option Log
unfolding fputs
reopen_file again l =
    if again.daemonize
    then (do
      written ← l.file
      some (record l {
        sighup = false;
        closed = l.closed ++ written ∷ [];
        file = if again.opens then some [] else none;
        on_stdout = false;
      }))
    else fputs (codes "I caught SIGHUP but the output is going to console!" ++ 10 ∷ [])
        (record l { sighup = false })

unfoldable pub check_sighup : Reopening → Log → Option Log
unfolding reopen_file
check_sighup again l = if l.sighup then reopen_file again l else some l

-- A text in a buffer of 32 characters, with its terminator.
abbrev pub in_buffer : List ℕ → Option (List ℕ)
in_buffer text = if ltb (length text) 32 then some text else none

-- What print_element writes; `d` is the uninitialised variable of itoa.
unfoldable pub element_text : ℕ → ℕ → Element → Option (List ℕ)
element_text fuel d (of_text s) = some (c_string s)
element_text fuel d (of_char c) = some (c ∷ [])
element_text fuel d (of_size n) = do text ← itoa_u64 fuel d n []; in_buffer text
element_text fuel d (of_int64 n) = do text ← itoa_i64 fuel d n []; in_buffer text
element_text fuel d (of_uint32 n) = in_buffer (itoa_u32 d n [])
element_text fuel d (of_int32 n) = in_buffer (itoa_i32 d n [])
element_text fuel d (of_v32 v) = hex_of v.bytes 32 65

unfoldable pub print_element : ℕ → ℕ → Element → Log → Option Log
unfolding fputs element_text
print_element fuel d arg l = do text ← element_text fuel d arg; fputs text l

unfoldable pub print_all : ℕ → ℕ → List Element → Log → Option Log
unfolding print_element
print_all fuel d [] l = print_element fuel d (of_char 10) l
print_all fuel d (arg ∷ args) l = do l' ← print_element fuel d arg l; print_all fuel d args l'

-- The part of `log` behind the signal; `stamp` is what strftime makes of the time.
unfoldable pub print_message : ℕ → ℕ → List ℕ → Colour → List Element → Log → Option Log
unfolding set_colour fputs print_all reset_colour
print_message fuel d stamp clr args l = do
  l₁ ← set_colour clr l
  l₂ ← fputs stamp l₁
  l₃ ← print_all fuel d args l₂
  reset_colour l₃

unfoldable pub log :
    ℕ → ℕ → Reopening → List ℕ → LogLevel → Colour → List Element → Log → Option Log
unfolding check_sighup print_message
log fuel d again stamp lvl clr args l =
    if ltb (level_number lvl) l.current_level
    then some l
    else (do l' ← check_sighup again l; print_message fuel d stamp clr args l')
