-- ===== src/Benchmarks/Json/Reader.antt =====
-- A string that write_string wrote is read back.
use thunder_bolt_ht.Base.{
  ℕ, zero, suc, ◌+◌, ◌-◌, ◌*◌, ◌/◌, ◌%◌, ◌<◌, ◌≡◌, refl, sym, ap, ◌∙◌, true, false, ltb, leb, ◌==◌,
  if◌then◌else◌, List, [], ◌∷◌, ◌++◌, append_assoc, append-nil, arith, dec_lt, ℕ_discrete, ne→==,
}
use thunder_bolt_ht.Benchmarks.Json.{hex_digit, escaped, escape, quoted}

-- How a reader of JSON stands in a string: `hex n v` behind an escape of which `n` digits are left.
pub data Mode : Type 0 where
  plain : Mode
  behind_backslash : Mode
  hex : ℕ → ℕ → Mode
  closed : Mode
  invalid : Mode

-- The text that was read so far.
pub record ReadState : Type 0 where
  pub mode : Mode
  pub text : List ℕ

abbrev keep : List ℕ → ℕ → ReadState
keep t c = record { mode = plain; text = t ++ c ∷ [] }

abbrev stand : Mode → List ℕ → ReadState
stand m t = record { mode = m; text = t }

-- A quote ends the string, and a control character must not stand in it.
unfoldable pub read_plain : List ℕ → ℕ → ReadState
read_plain t c =
    if c == 34
    then stand closed t
    else if c == 92
    then stand behind_backslash t
    else if ltb c 32
    then stand invalid t
    else keep t c

unfoldable pub read_escape : List ℕ → ℕ → ReadState
read_escape t c =
    if c == 34
    then keep t 34
    else if c == 92
    then keep t 92
    else if c == 110
    then keep t 10
    else if c == 114
    then keep t 13
    else if c == 116
    then keep t 9
    else if c == 117
    then stand (hex 4 0) t
    else stand invalid t

abbrev digit_value : ℕ → ℕ
digit_value c = if leb c 57 then c - 48 else c - 87

unfoldable pub read_in : Mode → List ℕ → ℕ → ReadState
read_in plain t c = read_plain t c
read_in behind_backslash t c = read_escape t c
read_in (hex zero v) t c = stand invalid t
read_in (hex (suc zero) v) t c = keep t (v * 16 + digit_value c)
read_in (hex (suc (suc n)) v) t c = stand (hex (suc n) (v * 16 + digit_value c)) t
read_in closed t c = stand invalid t
read_in invalid t c = stand invalid t

unfoldable pub read_char : ReadState → ℕ → ReadState
read_char s c = read_in s.mode s.text c

-- What was read at the end of a list of bytes.
unfoldable pub read_chars : ReadState → List ℕ → ReadState
read_chars s [] = s
read_chars s (c ∷ cs) = read_chars (read_char s c) cs

-- The string that a list of bytes writes in JSON: behind the quote that opens it.
unfoldable pub read_string : List ℕ → ReadState
read_string [] = stand invalid []
read_string (c ∷ cs) = if c == 34 then read_chars (stand plain []) cs else stand invalid []

read_chars-append :
    (s : ReadState) (cs ds : List ℕ) → read_chars s (cs ++ ds) ≡ read_chars (read_chars s cs) ds
unfolding read_chars
read_chars-append s [] ds = refl
read_chars-append s (c ∷ cs) ds = read_chars-append (read_char s c) cs ds

digit_value-hex_digit : (d : ℕ) → d < 16 → digit_value (hex_digit d) ≡ d
unfolding hex_digit
digit_value-hex_digit d lt = ground arith

abbrev NoneSpecial : ℕ → Type 0
NoneSpecial c =
    ((c == 34) ≡ false)
    × ((c == 92) ≡ false)
    × ((c == 10) ≡ false)
    × ((c == 13) ≡ false)
    × ((c == 9) ≡ false)

read_unescaped :
    (t : List ℕ) (c : ℕ)
    → NoneSpecial c
    → read_chars (stand plain t) (escaped c) ≡ stand plain (t ++ c ∷ [])
unfolding read_chars read_char read_in read_plain read_escape escaped
read_unescaped t c (quote, backslash, newline, return, tab) = elim (dec_lt c 32) [
  | yes control ↦
      let small : ltb c 32 ≡ true = ground (arith, control) in
      let high : digit_value (hex_digit ((c / 16) % 16)) ≡ (c / 16) % 16 =
        digit_value-hex_digit ((c / 16) % 16) (omega arith) in
      let low : digit_value (hex_digit (c % 16)) ≡ c % 16 =
        digit_value-hex_digit (c % 16) (omega arith) in
      let back : ((c / 16) % 16) * 16 + c % 16 ≡ c = omega (arith, control) in
      rw (quote, backslash, newline, return, tab, small)
        (ap (keep t) (omega (arith, high, low, back)))
  | no visible ↦
      let large : ltb c 32 ≡ false = ground (arith, visible) in
      rw (quote, backslash, newline, return, tab, large) (rw (quote, backslash, large) refl)
]

read_escaped :
    (t : List ℕ) (c : ℕ) → read_chars (stand plain t) (escaped c) ≡ stand plain (t ++ c ∷ [])
unfolding read_chars read_char read_in read_plain read_escape escaped
read_escaped t c = elim (ℕ_discrete c 34) [
  | yes e ↦ rw e refl
  | no quote ↦ elim (ℕ_discrete c 92) [
    | yes e ↦ rw e refl
    | no backslash ↦ elim (ℕ_discrete c 10) [
      | yes e ↦ rw e refl
      | no newline ↦ elim (ℕ_discrete c 13) [
        | yes e ↦ rw e refl
        | no return ↦ elim (ℕ_discrete c 9) [
          | yes e ↦ rw e refl
          | no tab ↦ read_unescaped t c (
            ne→== c 34 quote,
            ne→== c 92 backslash,
            ne→== c 10 newline,
            ne→== c 13 return,
            ne→== c 9 tab,
          )
        ]
      ]
    ]
  ]
]

read_escape_all : (t cs : List ℕ) → read_chars (stand plain t) (escape cs) ≡ stand plain (t ++ cs)
unfolding read_chars escape
read_escape_all t [] = ap (stand plain) (sym (append-nil t))
read_escape_all t (c ∷ cs) =
    read_chars-append (stand plain t) (escaped c) (escape cs)
    ∙ ap (λ s. read_chars s (escape cs)) (read_escaped t c)
    ∙ read_escape_all (t ++ c ∷ []) cs
    ∙ ap (stand plain) (append_assoc t (c ∷ []) cs)

-- What write_string writes is a string of JSON, which ends at its last byte and not before, has no raw
-- control character, and whose text is the one that was given.
pub read_string-quoted : (value : List ℕ) → read_string (quoted value) ≡ stand closed value
unfolding read_string quoted read_chars read_char read_in read_plain
read_string-quoted value =
    read_chars-append (stand plain []) (escape value) (34 ∷ [])
    ∙ ap (λ s. read_chars s (34 ∷ [])) (read_escape_all [] value)
