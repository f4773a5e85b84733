-- ===== src/Text/Lines/Laws.antt =====
-- How `str.splitlines` cuts a text.
use ultimate_harness.Base.{
  ℕ, ◌≡◌, refl, ap, ◌∙◌, ◌≢◌, inl, inr, Bool, true, false, not, List, [], ◌∷◌, ◌++◌, arith, ◌==◌,
  all, all-append, Bool-cases,
}
use ultimate_harness.Text.Codes.{Codes}
use ultimate_harness.Text.Lines.{is_break, push, lines_from, splitlines}

abbrev pub no_break : ℕ → Bool
no_break c = not (is_break c)

push-append :
    (c : ℕ) (before after : List Codes)
    → before ≢ []
    → push c (before ++ after) ≡ push c before ++ after
unfolding push
push-append c [] after h = absurd (h refl)
push-append c (l ∷ ls) after h = refl

push-ne_nil : (c : ℕ) (ls : List Codes) → push c ls ≢ []
unfolding push
push-ne_nil c [] e = cc
push-ne_nil c (l ∷ ls) e = cc

-- The lines before a line feed, and those behind it: the cut does not depend on what follows.
record Cut (after_cr : Bool) (xs ys : Codes) : Type 0 where
  before : List Codes
  lines : lines_from after_cr (xs ++ 10 ∷ ys) ≡ before ++ lines_from false ys
  complete : after_cr ≡ false → before ≢ []

Cut-cons : (x : ℕ) (xs ys : Codes) → Cut false xs ys → Cut (x == 13) xs ys → Cut false (x ∷ xs) ys
unfolding lines_from
Cut-cons x xs ys here there = elim (Bool-cases (is_break x)) [
  | inl b ↦ record {
    before = [] ∷ there.before;
    lines = rw (b, lines_from) (ap (λ ls. [] ∷ ls) there.lines);
    complete = λ h e. cc;
  }
  | inr n ↦ record {
    before = push x here.before;
    lines =
        rw (n, lines_from)
          (ap (push x) here.lines
            ∙ push-append x here.before (lines_from false ys) (here.complete refl));
    complete = λ h. push-ne_nil x here.before;
  }
]

other-lf :
    (x : ℕ) (cs : Codes) → (x == 10) ≡ false → lines_from true (x ∷ cs) ≡ lines_from false (x ∷ cs)
unfolding lines_from
other-lf x cs h = rw (h, lines_from)

cut : (after_cr : Bool) (xs ys : Codes) → Cut after_cr xs ys
unfolding lines_from
cut true [] ys = record { before = []; lines = refl; complete = λ h. cc }
cut false [] ys = record { before = [] ∷ []; lines = refl; complete = λ h e. cc }
cut false (x ∷ xs) ys = Cut-cons x xs ys (cut false xs ys) (cut (x == 13) xs ys)
cut true (x ∷ xs) ys = elim (Bool-cases (x == 10)) [
  | inl lf ↦ record {
    before = (cut false xs ys).before;
    lines = rw (lf, lines_from) (cut false xs ys).lines;
    complete = λ h. cc;
  }
  | inr other ↦
      let c = Cut-cons x xs ys (cut false xs ys) (cut (x == 13) xs ys) in
      record {
        before = c.before;
        lines = rw (other-lf x (xs ++ 10 ∷ ys) other) c.lines;
        complete = λ h. cc;
      }
]

-- The lines behind a line feed are those of the text behind it.
pub splitlines-append_lf :
    (xs ys : Codes) → (before : List Codes) × (splitlines (xs ++ 10 ∷ ys) ≡ before ++ splitlines ys)
unfolding splitlines
splitlines-append_lf xs ys = let c = cut false xs ys in (c.before, c.lines)

-- A text with no line break before a break is one line.
pub splitlines-break :
    (xs ys : Codes) (c : ℕ)
    → all no_break xs ≡ true
    → is_break c ≡ true
    → (c == 13) ≡ false
    → splitlines (xs ++ c ∷ ys) ≡ xs ∷ splitlines ys
unfolding splitlines
splitlines-break [] ys c h b n = rw (b, lines_from) (rw n refl)
splitlines-break (x ∷ xs) ys c h b n = ground (arith, splitlines-break xs ys c)

pub splitlines-single :
    (x : ℕ) (xs : Codes) → all no_break (x ∷ xs) ≡ true → splitlines (x ∷ xs) ≡ (x ∷ xs) ∷ []
unfolding splitlines
splitlines-single x [] h = ground arith
splitlines-single x (y ∷ xs) h = ground (arith, splitlines-single y xs)

pub splitlines-append_one :
    (xs : Codes) (x : ℕ)
    → all no_break xs ≡ true
    → no_break x ≡ true
    → splitlines (xs ++ x ∷ []) ≡ (xs ++ x ∷ []) ∷ []
splitlines-append_one [] x h hx = splitlines-single x [] (ground arith)
splitlines-append_one (y ∷ xs) x h hx =
    splitlines-single y (xs ++ x ∷ []) (ground (arith, all-append no_break xs (x ∷ [])))
