-- ===== src/LiveBgpParser/Lines.antt =====
-- The lines of the byte stream (modules/live_bgp_parser.rs), described without the buffer.
use netfabric_bgp_router.Prelude.{
  ℕ, ◌<◌, ◌≡◌, refl, ap, ◌∙◌, Bool, true, false, none, some, List, [], ◌∷◌, ◌++◌, length, ◌==◌,
  arith, Option-cases, inl, inr,
}
use netfabric_bgp_router.LiveBgpParser.{Bytes, split_line, concat}

-- One byte, which is a newline or not, before complete lines and an open one.
abbrev prepend : Bool → ℕ → List Bytes → Bytes → List Bytes × Bytes
prepend true b ls rest = ((b ∷ []) ∷ ls, rest)
prepend false b [] rest = ([], b ∷ rest)
prepend false b (line ∷ ls) rest = ((b ∷ line) ∷ ls, rest)

-- The complete lines, each with its newline, and the bytes of the line that is still open.
unfoldable pub lines : Bytes → List Bytes × Bytes
lines [] = ([], [])
lines (b ∷ bs) = prepend (b == b'\n') b (lines bs).0 (lines bs).1

pub lines-none : (bs : Bytes) → split_line bs ≡ none → lines bs ≡ ([], bs)
unfolding split_line lines
lines-none [] h = refl
lines-none (b ∷ bs) h = ground (arith, lines-none bs)

pub lines-some :
    (bs line rest : Bytes)
    → split_line bs ≡ some (line, rest)
    → lines bs ≡ (line ∷ (lines rest).0, (lines rest).1)
unfolding split_line lines
lines-some [] line rest h = cc
lines-some (b ∷ bs) line rest h = elim (Option-cases (split_line bs)) [
  | inl e ↦ ground arith
  | inr ((first, after), e) ↦ ground (arith, lines-some bs first after e)
]

pub split_line-shorter :
    (bs line rest : Bytes) → split_line bs ≡ some (line, rest) → length rest < length bs
unfolding split_line
split_line-shorter [] line rest h = cc
split_line-shorter (b ∷ bs) line rest h = elim (Option-cases (split_line bs)) [
  | inl e ↦ ground arith
  | inr ((first, after), e) ↦ ground (arith, split_line-shorter bs first after e)
]

-- The lines of more bytes: the open line is continued.
pub lines-append :
    (a b : Bytes)
    → let more = lines ((lines a).1 ++ b) in lines (a ++ b) ≡ ((lines a).0 ++ more.0, more.1)
unfolding lines
lines-append [] b = refl
lines-append (c ∷ a) b =
    rw (lines-append a b) (prepend-append (c == b'\n') c (lines a).0 (lines a).1 refl)
  where
    prepend-append :
        (newline : Bool) (c : ℕ) (ls : List Bytes) (r : Bytes)
        → (c == b'\n') ≡ newline
        → prepend newline c (ls ++ (lines (r ++ b)).0) (lines (r ++ b)).1 ≡ (
          (prepend newline c ls r).0 ++ (lines ((prepend newline c ls r).1 ++ b)).0,
          (lines ((prepend newline c ls r).1 ++ b)).1,
        )
    prepend-append true c ls r e = refl
    prepend-append false c [] r e = rw e
    prepend-append false c (l ∷ ls) r e = refl

-- The lines and the open one are the bytes again.
pub concat-lines : (bs : Bytes) → concat (lines bs).0 ++ (lines bs).1 ≡ bs
unfolding lines
concat-lines [] = refl
concat-lines (b ∷ bs) =
    concat-prepend (b == b'\n') (lines bs).0 (lines bs).1 ∙ ap (λ x. b ∷ x) (concat-lines bs)
  where
    concat-prepend :
        (newline : Bool) (ls : List Bytes) (r : Bytes)
        → concat (prepend newline b ls r).0 ++ (prepend newline b ls r).1 ≡ b ∷ (concat ls ++ r)
    concat-prepend true ls r = refl
    concat-prepend false [] r = refl
    concat-prepend false (l ∷ ls) r = refl

-- The line that is still open has no newline.
pub lines_open : (bs : Bytes) → lines (lines bs).1 ≡ ([], (lines bs).1)
unfolding lines
lines_open [] = refl
lines_open (b ∷ bs) = open_prepend (b == b'\n') (lines bs).0 (lines_open bs) refl
  where
    open_prepend :
        (newline : Bool) (ls : List Bytes)
        → lines (lines bs).1 ≡ ([], (lines bs).1)
        → (b == b'\n') ≡ newline
        → lines (prepend newline b ls (lines bs).1).1 ≡ ([], (prepend newline b ls (lines bs).1).1)
    open_prepend true ls ih e = ih
    open_prepend false [] ih e = rw (ih, e)
    open_prepend false (l ∷ ls) ih e = ih
