-- ===== src/Audit/FileStore/Lines.antt =====
-- Lines of bytes: a complete line that is added to complete lines is one more line.
use helmdeep.Base.{ℕ, List, [], ◌∷◌, ◌++◌, ◌≡◌, ◌≢◌, refl, ap, ◌∙◌, All, arith, if◌then◌else◌}
use helmdeep.Base.Text.{eqb}
use helmdeep.Audit.FileStore.{Bytes, newline, push_byte, lines_of}

-- Empty, or ended by a newline.
abbrev pub IsComplete : Bytes → Type 0
IsComplete [] = Unit
IsComplete (b ∷ []) = b ≡ newline
IsComplete (b ∷ c ∷ bs) = IsComplete (c ∷ bs)

abbrev pub HasNoNewline : Bytes → Type 0
HasNoNewline = All (λ b. b ≢ newline)

abbrev lines_front : ℕ → List Bytes → List Bytes
lines_front b rest = if eqb b newline then (b ∷ []) ∷ rest else push_byte b rest

lines_of-cons-ne-nil : (b : ℕ) (bs : Bytes) → lines_of (b ∷ bs) ≢ []
unfolding lines_of
lines_of-cons-ne-nil b bs h = lines_front-ne-nil b (lines_of bs) h
  where
    lines_front-ne-nil : (b : ℕ) (rest : List Bytes) → lines_front b rest ≢ []
    lines_front-ne-nil b [] h = ground arith
    lines_front-ne-nil b (l ∷ ls) h = ground arith

lines_front-append :
    (b : ℕ) (xs ys : List Bytes) → xs ≢ [] → lines_front b (xs ++ ys) ≡ lines_front b xs ++ ys
lines_front-append b [] ys h = absurd (h refl)
lines_front-append b (x ∷ xs) ys h = ground arith

pub lines_of-append : (a b : Bytes) → IsComplete a → lines_of (a ++ b) ≡ lines_of a ++ lines_of b
unfolding lines_of
lines_of-append [] b h = refl
lines_of-append (x ∷ []) b h = ground arith
lines_of-append (x ∷ y ∷ a) b h =
    ap (lines_front x) (lines_of-append (y ∷ a) b h)
    ∙ lines_front-append x (lines_of (y ∷ a)) (lines_of b) (lines_of-cons-ne-nil y a)

pub lines_of-line :
    (line : Bytes)
    → HasNoNewline line
    → lines_of (line ++ newline ∷ []) ≡ (line ++ newline ∷ []) ∷ []
unfolding lines_of
lines_of-line [] h = refl
lines_of-line (b ∷ bs) (p, h) = ap (lines_front b) (lines_of-line bs h) ∙ ground arith

IsComplete-line : (line : Bytes) → IsComplete (line ++ newline ∷ [])
IsComplete-line [] = refl
IsComplete-line (b ∷ []) = refl
IsComplete-line (b ∷ c ∷ bs) = IsComplete-line (c ∷ bs)

pub IsComplete-append-line : (a line : Bytes) → IsComplete (a ++ (line ++ newline ∷ []))
IsComplete-append-line [] line = IsComplete-line line
IsComplete-append-line (b ∷ []) [] = refl
IsComplete-append-line (b ∷ []) (c ∷ line) = IsComplete-line (c ∷ line)
IsComplete-append-line (b ∷ c ∷ a) line = IsComplete-append-line (c ∷ a) line
