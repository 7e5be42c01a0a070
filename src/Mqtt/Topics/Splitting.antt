-- ===== src/Mqtt/Topics/Splitting.antt =====
-- Splitting a text at its slashes, and taking a prefix off.
use Prim.Native.Char.{Char, code}
use Prim.Native.String as Str
use text.Mathlib.TextEquality.{Char-path}
use zigbeelens.Common.{
  String, ◌≡◌, ◌≢◌, refl, ap, ◌∙◌, false, some, List, [], ◌∷◌, arith, All, ◌==◌, Bool-cases, inl,
  inr,
}
use zigbeelens.Mqtt.Topics.{after_prefix, split, extend_first, slash, ◌+/+◌}

unfoldable pub NoSlash : String → Type 0
NoSlash Str.[] = Unit
NoSlash (Str.◌∷◌ c s) = (code c ≢ slash) × NoSlash s

-- `"/".join(parts)`
unfoldable pub join_slash : List String → String
join_slash [] = ""
join_slash (w ∷ []) = w
join_slash (w ∷ v ∷ ws) = w +/+ join_slash (v ∷ ws)

pub after_prefix-append : (p t : String) → after_prefix p (Str.◌++◌ p t) ≡ some t
unfolding after_prefix
after_prefix-append Str.[] t = ap some (Str.append.nil t)
after_prefix-append (Str.◌∷◌ c p) t =
    let rest = after_prefix-append p t in rw (Str.append.cons c p t) (ground (arith, rest))

pub after_prefix_inv : (p t r : String) → after_prefix p t ≡ some r → t ≡ Str.◌++◌ p r
unfolding after_prefix
after_prefix_inv Str.[] t r h = cc (h, Str.append.nil r)
after_prefix_inv (Str.◌∷◌ c p) Str.[] r h = absurd (cc h)
after_prefix_inv (Str.◌∷◌ c p) (Str.◌∷◌ d t) r h =
    let rest = after_prefix_inv p t r in
    elim (Bool-cases (code c == code d)) [
      | inl e ↦
          let same_code : code c ≡ code d = ground (arith, e) in
          let found : after_prefix p t ≡ some r = ground (arith, e, h) in
          cc (Char-path c d same_code, rest found, Str.append.cons c p r)
      | inr e ↦ absurd (ground (arith, e, h))
    ]

-- A text without slashes is one part.
pub split-NoSlash : (s : String) → NoSlash s → split s ≡ s ∷ []
unfolding split NoSlash
split-NoSlash Str.[] h = refl
split-NoSlash (Str.◌∷◌ c s) h =
    let rest = split-NoSlash s h.1 in
    let other : (code c == slash) ≡ false = ground (arith, h.0) in rw other (rw rest refl)

abbrev slash_char : Char
slash_char = "/"

slash-append : (t : String) → Str.◌++◌ "" (Str.◌++◌ "/" t) ≡ Str.◌∷◌ slash_char t
slash-append t =
    Str.append.nil (Str.◌++◌ "/" t)
    ∙ Str.append.cons slash_char Str.[] t
    ∙ ap (λ u. Str.◌∷◌ slash_char u) (Str.append.nil t)

-- A text without slashes before the first slash is the first part.
pub split-append : (w t : String) → NoSlash w → split (w +/+ t) ≡ w ∷ split t
unfolding split NoSlash
split-append Str.[] t h = rw (slash-append t) refl
split-append (Str.◌∷◌ c w) t h =
    let rest = split-append w t h.1 in
    let other : (code c == slash) ≡ false = ground (arith, h.0) in
    rw (Str.append.cons c w (Str.◌++◌ "/" t)) (rw other (rw rest refl))

split-cons : (s : String) → (w : String) × (ws : List String) × (split s ≡ w ∷ ws)
unfolding split
split-cons Str.[] = ("", [], refl)
split-cons (Str.◌∷◌ c s) =
    let rest = split-cons s in
    elim (Bool-cases (code c == slash)) [
      | inl e ↦ ("", split s, rw e refl)
      | inr e ↦ (Str.◌∷◌ c rest.0, rest.1, rw e (rw (rest.2) refl))
    ]

All-extend_first :
    (c : Char) (ws : List String)
    → code c ≢ slash
    → All NoSlash ws
    → All NoSlash (extend_first c ws)
unfolding extend_first NoSlash
All-extend_first c [] other h = ((other, tt), tt)
All-extend_first c (w ∷ ws) other h = ((other, h.0), h.1)

join-extend_first :
    (c : Char) (ws : List String) → join_slash (extend_first c ws) ≡ Str.◌∷◌ c (join_slash ws)
unfolding extend_first join_slash
join-extend_first c [] = refl
join-extend_first c (w ∷ []) = refl
join-extend_first c (w ∷ v ∷ ws) = Str.append.cons c w (Str.◌++◌ "/" (join_slash (v ∷ ws)))

-- The parts of a text have no slashes, and joined they are the text.
pub split-All : (s : String) → All NoSlash (split s)
unfolding split NoSlash
split-All Str.[] = (tt, tt)
split-All (Str.◌∷◌ c s) =
    let rest = split-All s in
    elim (Bool-cases (code c == slash)) [
      | inl e ↦ rw e (tt, rest)
      | inr e ↦ rw e (All-extend_first c (split s) (ground (arith, e)) rest)
    ]

pub join-split : (s : String) → join_slash (split s) ≡ s
unfolding split join_slash
join-split Str.[] = refl
join-split (Str.◌∷◌ c s) =
    let rest = join-split s in
    let parts = split-cons s in
    let joined : join_slash ("" ∷ split s) ≡ Str.◌∷◌ slash_char (join_slash (split s)) =
      rw parts.2 (slash-append (join_slash (parts.0 ∷ parts.1))) in
    elim (Bool-cases (code c == slash)) [
      | inl e ↦
          let same : c ≡ slash_char = Char-path c slash_char (ground (arith, e)) in
          rw e (cc (joined, same, rest))
      | inr e ↦ rw e (cc (join-extend_first c (split s), rest))
    ]
