-- ===== src/Engine/Math.antt =====
-- engine/core/Math.hpp: vectors, and the values that seed the world.
--
-- The type `float` and its operations are the processor's and its library's, so they are an interface:
-- each is a function, and nothing else is asked of it. `lit n d` is the literal n / 10 ^ d.
use Prim.Native.Nat.{bit_xor}
use thunder_bolt_ht.Base.{ℕ, ◌+◌, ◌*◌, ◌/◌, ◌%◌, ◌^◌, Bool, if◌then◌else◌}

pub record Float (F : Type 0) : Type 0 where
  pub lit : ℕ → ℕ → F
  pub of_int : ℕ → F
  pub plus : F → F → F
  pub minus : F → F → F
  pub times : F → F → F
  pub over : F → F → F
  pub fmod : F → F → F
  pub pow : F → F → F
  pub sqrt : F → F
  pub cos : F → F
  pub sin : F → F
  pub abs : F → F
  pub negate : F → F
  pub lt : F → F → Bool
  pub le : F → F → Bool

infixl 65 ◌⊕◌ ◌⊖◌
infixl 70 ◌⊗◌ ◌⊘◌
infix 50 ◌≺◌ ◌≼◌
abbrev pub ◌⊕◌ : {F : Type 0} ⦃o : Float F⦄ → F → F → F
◌⊕◌ ⦃o⦄ = o.plus

abbrev pub ◌⊖◌ : {F : Type 0} ⦃o : Float F⦄ → F → F → F
◌⊖◌ ⦃o⦄ = o.minus

abbrev pub ◌⊗◌ : {F : Type 0} ⦃o : Float F⦄ → F → F → F
◌⊗◌ ⦃o⦄ = o.times

abbrev pub ◌⊘◌ : {F : Type 0} ⦃o : Float F⦄ → F → F → F
◌⊘◌ ⦃o⦄ = o.over

abbrev pub ◌≺◌ : {F : Type 0} ⦃o : Float F⦄ → F → F → Bool
◌≺◌ ⦃o⦄ = o.lt

abbrev pub ◌≼◌ : {F : Type 0} ⦃o : Float F⦄ → F → F → Bool
◌≼◌ ⦃o⦄ = o.le

pub record Vec3 (F : Type 0) : Type 0 where
  pub x : F
  pub y : F
  pub z : F

-- uint64_t arithmetic.
abbrev u64 : ℕ → ℕ
u64 n = n % 2 ^ 64

pub mix64 : ℕ → ℕ
mix64 x =
    let a = u64 (x + 0x9E3779B97F4A7C15) in
    let b = u64 (bit_xor a (a / 2 ^ 30) * 0xBF58476D1CE4E5B9) in
    let c = u64 (bit_xor b (b / 2 ^ 27) * 0x94D049BB133111EB) in bit_xor c (c / 2 ^ 31)

module _ {F : Type 0} ⦃o : Float F⦄ where
  abbrev pub lit : ℕ → ℕ → F
  lit n d = o.lit n d

  pub zero_vec : Vec3 F
  zero_vec = record { x = lit 0 1; y = lit 0 1; z = lit 0 1 }

  pub add : Vec3 F → Vec3 F → Vec3 F
  add a b = record { x = a.x ⊕ b.x; y = a.y ⊕ b.y; z = a.z ⊕ b.z }

  pub sub : Vec3 F → Vec3 F → Vec3 F
  sub a b = record { x = a.x ⊖ b.x; y = a.y ⊖ b.y; z = a.z ⊖ b.z }

  pub scale : Vec3 F → F → Vec3 F
  scale v s = record { x = v.x ⊗ s; y = v.y ⊗ s; z = v.z ⊗ s }

  pub dot : Vec3 F → Vec3 F → F
  dot a b = (a.x ⊗ b.x) ⊕ (a.y ⊗ b.y) ⊕ (a.z ⊗ b.z)

  pub length_squared : Vec3 F → F
  length_squared v = dot v v

  pub magnitude : Vec3 F → F
  magnitude v = o.sqrt (length_squared v)

  pub normalized_or_zero : Vec3 F → Vec3 F
  normalized_or_zero v =
      let len = magnitude v in if len ≼ lit 1 6 then zero_vec else scale v (lit 10 1 ⊘ len)

  pub clampf : F → F → F → F
  clampf value low high = if value ≺ low then low else (if high ≺ value then high else value)

  pub wrapf : F → F → F
  wrapf value limit =
      let wrapped = o.fmod value limit in if wrapped ≺ lit 0 1 then wrapped ⊕ limit else wrapped

  pub random_unit : ℕ → ℕ → ℕ → F
  random_unit seed index stream =
      let bits = mix64 (bit_xor seed (mix64 (bit_xor index (u64 (stream * 0x2545F4914F6CDD1D))))) in
      o.of_int (bits / 2 ^ 40) ⊗ (lit 10 1 ⊘ lit 167772160 1)

  pub random_range : ℕ → ℕ → F → F → ℕ → F
  random_range seed index low high stream = low ⊕ (high ⊖ low) ⊗ random_unit seed index stream
