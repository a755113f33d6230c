-- ===== src/Config/Decode/Keys.antt =====
-- The lines that are accepted.
use Prim.Native.Char.{code}
use text.Mathlib.TextBridge.{of_list}
use lifeline.Prelude.{◌≡◌, refl, ℕ, suc, Bool, true, false, Option, none, some, ◌==◌, if◌then◌else◌}
use lifeline.Prelude.{List, [], ◌∷◌, ◌⊎◌, inl, inr, ==→≡, Bool-cases}
use lifeline.Config.{Config}
use lifeline.Config.Values.{Text, is_nil, trim_space, strip_comment}
use lifeline.Config.Decode.{
  Field, field_of, DecodeError, scan_error, State, Decoded, decoded, refused, ◌>=>◌, cut,
  decode_pair, decode_raw, decode_line, decode_lines, decode_flat,
}

-- A line, without its comment and the spaces around it, that is empty, or begins with a dash, or has
-- a known key before its first separator.
abbrev pub IsAcceptable : ℕ → Text → Type 0
IsAcceptable sep [] = Unit
IsAcceptable sep (c ∷ s) =
    (code c ≡ b'-')
    ⊎ ((before : Text) × (after : Text) × (f : Field) × (cut sep (c ∷ s) ≡ some (before, after))
        × (field_of (of_list (trim_space before)) ≡ some f))

abbrev pub AreAcceptable : ℕ → List Text → Type 0
AreAcceptable sep [] = Unit
AreAcceptable sep (l ∷ ls) =
    IsAcceptable sep (trim_space (strip_comment 0 l)) × AreAcceptable sep ls

-- Results that come out of a case split.
from_some :
    {A B : Type 0} (o : Option A) (e : DecodeError) (f : A → Decoded B) (b : B)
    → elim o [ none ↦ refused e | some a ↦ f a ] ≡ decoded b
    → (a : A) × (o ≡ some a) × (f a ≡ decoded b)
from_some none e f b h = absurd (cc)
from_some (some a) e f b h = (a, refl, h)

from_else :
    {B : Type 0} (t : Bool) (e : DecodeError) (x : Decoded B) (b : B)
    → (if t then refused e else x) ≡ decoded b
    → x ≡ decoded b
from_else true e x b h = absurd (cc)
from_else false e x b h = h

from_bind :
    {A B : Type 0} (x : Decoded A) (f : A → Decoded B) (b : B)
    → (x >=> f) ≡ decoded b
    → (a : A) × (x ≡ decoded a) × (f a ≡ decoded b)
from_bind (decoded a) f b h = (a, refl, h)
from_bind (refused e) f b h = absurd (cc)

decode_pair-known :
    (sep line : ℕ) (before after : Text) (st st' : State)
    → decode_pair sep line before after st ≡ decoded st'
    → (f : Field) × (field_of (of_list (trim_space before)) ≡ some f)
unfolding decode_pair
decode_pair-known sep line before after st st' h =
    let (f, known, rest) = from_some _ _ _ st' (from_else (is_nil before) _ _ st' h) in (f, known)

decode_raw-IsAcceptable :
    (sep line : ℕ) (raw : Text) (st st' : State)
    → decode_raw sep line raw st ≡ decoded st'
    → IsAcceptable sep raw
decode_raw-IsAcceptable sep line [] st st' h = tt
decode_raw-IsAcceptable sep line (c ∷ s) st st' h = elim (Bool-cases (code c == b'-')) [
  | inl dash ↦ inl (==→≡ (code c) b'-' dash)
  | inr other ↦
      let ((before, after), found, rest) =
        from_some _ _ _ st' (not_dash (code c == b'-') _ _ other h) in
      let (f, known) = decode_pair-known sep line before after st st' rest in
      inr (before, after, f, found, known)
]
  where
    not_dash :
        (t : Bool) (x y : Decoded State)
        → t ≡ false
        → (if t then x else y) ≡ decoded st'
        → y ≡ decoded st'
    not_dash true x y e k = absurd (cc)
    not_dash false x y e k = k

decode_lines-AreAcceptable :
    (sep line : ℕ) (ls : List Text) (st st' : State)
    → decode_lines sep line ls st ≡ decoded st'
    → AreAcceptable sep ls
unfolding decode_lines decode_line
decode_lines-AreAcceptable sep line [] st st' h = tt
decode_lines-AreAcceptable sep line (l ∷ ls) st st' h =
    let (mid, first, rest) = from_bind (decode_line sep (suc line) l st) _ st' h in
    (
      decode_raw-IsAcceptable sep (suc line) (trim_space (strip_comment 0 l)) st mid first,
      decode_lines-AreAcceptable sep (suc line) ls mid st' rest,
    )

-- A file is decoded only if the scanner did not fail and each of its lines, without its comment and the
-- spaces around it, is empty, begins with a dash or has a known key before its first separator. So
-- one misspelt key refuses the whole file, whatever the order of the lists.
pub decode_flat-AreAcceptable :
    (sep : ℕ) (scan_failed : Bool) (order : List (Field × List Text) → List (Field × List Text))
    (ls : List Text) (cfg cfg' : Config)
    → decode_flat sep scan_failed order ls cfg ≡ decoded cfg'
    → (scan_failed ≡ false) × AreAcceptable sep ls
unfolding decode_flat
decode_flat-AreAcceptable sep scan_failed order ls cfg cfg' h =
    let (st, first, rest) = from_bind (decode_lines sep 0 ls _) _ cfg' h in
    (scanned scan_failed _ rest, decode_lines-AreAcceptable sep 0 ls _ st first)
  where
    scanned :
        (t : Bool) (x : Decoded Config)
        → (if t then refused scan_error else x) ≡ decoded cfg'
        → t ≡ false
    scanned true x k = absurd (cc)
    scanned false x k = refl
