-- ===== src/Benchmarks/Json.antt =====
-- JsonWriter of thunderbolt/benchmarks/harness/Json.hpp: results written as JSON, call by call.
--
-- A text is the list of its bytes. What the stream prints for a number or a bool is a parameter, the
-- text of a raw field. `end_object` and `end_array` without a container open are undefined in the
-- source, and write the bracket here.
pub mod Reader
pub mod Document
pub mod Printed
use thunder_bolt_ht.Base.{
  ℕ, zero, suc, ◌+◌, ◌-◌, ◌/◌, ◌%◌, Bool, true, false, ltb, ◌==◌, if◌then◌else◌, List, [], ◌∷◌,
  ◌++◌, length,
}

-- What stands on the stack for an open container.
pub record ContainerState : Type 0 where
  pub any_written : Bool
  pub is_array : Bool

-- What was written, and the stack, the innermost container first.
pub record JsonWriter : Type 0 where
  pub out : List ℕ
  pub stack : List ContainerState

unfoldable pub put : JsonWriter → List ℕ → JsonWriter
put w text = record w { out = w.out ++ text }

unfoldable pub hex_digit : ℕ → ℕ
hex_digit d = if ltb d 10 then d + b'0' else d - 10 + b'a'

-- What write_string writes for a byte.
unfoldable pub escaped : ℕ → List ℕ
escaped c =
    if c == b'"'
    then b'\\' ∷ b'"' ∷ []
    else if c == b'\\'
    then b'\\' ∷ b'\\' ∷ []
    else if c == 10
    then b'\\' ∷ b'n' ∷ []
    else if c == 13
    then b'\\' ∷ b'r' ∷ []
    else if c == 9
    then b'\\' ∷ b't' ∷ []
    else if ltb c 0x20
    then b'\\' ∷ b'u' ∷ b'0' ∷ b'0' ∷ hex_digit ((c / 16) % 16) ∷ hex_digit (c % 16) ∷ []
    else c ∷ []

unfoldable pub escape : List ℕ → List ℕ
escape [] = []
escape (c ∷ cs) = escaped c ++ escape cs

unfoldable pub quoted : List ℕ → List ℕ
quoted value = b'"' ∷ escape value ++ b'"' ∷ []

unfoldable pub write_string : JsonWriter → List ℕ → JsonWriter
write_string w value = put w (quoted value)

unfoldable pub indent : ℕ → List ℕ
indent zero = []
indent (suc n) = b' ' ∷ b' ' ∷ indent n

unfoldable pub newline_indent : JsonWriter → JsonWriter
newline_indent w = put w (10 ∷ indent (length w.stack))

unfoldable pub separate_in : List ℕ → List ContainerState → JsonWriter
separate_in out [] = record { out = out; stack = [] }
separate_in out (top ∷ below) = newline_indent record {
  out = if top.any_written then out ++ b',' ∷ [] else out;
  stack = record top { any_written = true } ∷ below;
}

unfoldable pub separate : JsonWriter → JsonWriter
separate w = separate_in w.out w.stack

unfoldable pub write_key : JsonWriter → List ℕ → JsonWriter
write_key w key = put (write_string (separate w) key) (b':' ∷ b' ' ∷ [])

unfoldable pub open_container : JsonWriter → ℕ → Bool → JsonWriter
open_container w bracket is_array = record {
  out = w.out ++ bracket ∷ [];
  stack = record { any_written = false; is_array = is_array } ∷ w.stack;
}

unfoldable pub begin_object : JsonWriter → JsonWriter
begin_object w = open_container (separate w) b'{' false

unfoldable pub begin_object_field : JsonWriter → List ℕ → JsonWriter
begin_object_field w key = open_container (write_key w key) b'{' false

unfoldable pub begin_array : JsonWriter → List ℕ → JsonWriter
begin_array w key = open_container (write_key w key) b'[' true

unfoldable pub close_in : List ℕ → List ContainerState → ℕ → JsonWriter
close_in out [] bracket = put (record { out = out; stack = [] }) (bracket ∷ [])
close_in out (top ∷ below) bracket =
    let popped : JsonWriter = record { out = out; stack = below } in
    put (if top.any_written then newline_indent popped else popped) (bracket ∷ [])

unfoldable pub close_container : JsonWriter → ℕ → JsonWriter
close_container w bracket = close_in w.out w.stack bracket

unfoldable pub end_object : JsonWriter → JsonWriter
end_object w = close_container w b'}'

unfoldable pub end_array : JsonWriter → JsonWriter
end_array w = close_container w b']'

-- `field` with a text.
unfoldable pub string_field : JsonWriter → List ℕ → List ℕ → JsonWriter
string_field w key value = write_string (write_key w key) value

-- `field` with a number or a bool, whose text is `text`.
unfoldable pub raw_field : JsonWriter → List ℕ → List ℕ → JsonWriter
raw_field w key text = put (write_key w key) text

-- `value`, an element of an array, whose text is `text`.
unfoldable pub raw_value : JsonWriter → List ℕ → JsonWriter
raw_value w text = put (separate w) text
