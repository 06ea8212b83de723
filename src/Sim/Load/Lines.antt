-- ===== src/Sim/Load/Lines.antt =====
-- The lines of an image, as `load_hex` of reference/verilator_trace/standalone_boom_trace.cpp should
-- read them, beside what the code keeps of a line.
use boom.Base.{
  ℕ, Bool, true, false, not, ◌&&◌, ◌||◌, ◌==◌, leb, if◌then◌else◌, if_true, if_false, List, [], ◌∷◌,
  ◌++◌, ◌≡◌, refl, sym, ap, ◌∙◌, arith, Bool-cases, inl, inr,
}
use mathlib.Core.List.{reverse, reverse-cons, reverse-append}
use boom.Sim.Load.{drop_spaces, trim, before_comment, has_comment, content, is_space}

-- One of `0` to `9`, `a` to `f` and `A` to `F`.
abbrev pub is_hex : ℕ → Bool
is_hex c = leb 48 c && leb c 57 || leb 97 c && leb c 102 || leb 65 c && leb c 70

-- A tabulator, one of the four control characters behind it, or a blank.
abbrev pub is_blank : ℕ → Bool
is_blank c = c == 32 || leb 9 c && leb c 13

-- Blanks up to the end of the line or to a comment, which begins with `#`.
pub is_rest : List ℕ → Bool
is_rest [] = true
is_rest (c ∷ s) = c == 35 || is_blank c && is_rest s

-- Digits, in all an even number with the one before if there is an `odd` one, and then the rest.
pub are_digits : Bool → List ℕ → Bool
are_digits odd [] = not odd
are_digits odd (c ∷ s) =
    let more = are_digits (not odd) s in
    if is_hex c then more else not odd && (c == 35 || is_blank c && is_rest s)

-- Blanks, an even number of digits, blanks, and perhaps a comment.
pub is_line : List ℕ → Bool
is_line [] = true
is_line (c ∷ s) = let behind = is_line s in if is_blank c then behind else are_digits false (c ∷ s)

unfoldable pub are_lines : List (List ℕ) → Bool
are_lines [] = true
are_lines (line ∷ lines) = is_line line && are_lines lines

-- A text without the spaces at its end, from the front.
add_front : ℕ → List ℕ → List ℕ
add_front c [] = if is_space c then [] else c ∷ []
add_front c (x ∷ r) = c ∷ x ∷ r

drop_end : List ℕ → List ℕ
drop_end [] = []
drop_end (c ∷ s) = add_front c (drop_end s)

is_empty : List ℕ → Bool
is_empty [] = true
is_empty (c ∷ s) = false

drop_spaces-snoc :
    (s : List ℕ) (c : ℕ)
    → drop_spaces (s ++ c ∷ [])
      ≡ (if is_empty (drop_spaces s) then drop_spaces (c ∷ []) else drop_spaces s ++ c ∷ [])
unfolding drop_spaces is_empty
drop_spaces-snoc [] c = refl
drop_spaces-snoc (x ∷ s) c = elim (Bool-cases (is_space x)) [
  | inl e ↦ rw e (drop_spaces-snoc s c)
  | inr e ↦ rw e refl
]

add_front-space : (c : ℕ) → is_space c ≡ true → add_front c [] ≡ []
unfolding add_front
add_front-space c e = if_true {b = is_space c} _ _ e

add_front-other : (c : ℕ) → is_space c ≡ false → add_front c [] ≡ c ∷ []
unfolding add_front
add_front-other c e = if_false {b = is_space c} _ _ e

add_front-snoc : (c : ℕ) (r : List ℕ) (x : ℕ) → add_front c (r ++ x ∷ []) ≡ c ∷ r ++ x ∷ []
unfolding add_front
add_front-snoc c [] x = refl
add_front-snoc c (y ∷ r) x = refl

reverse-drop_spaces : (s : List ℕ) → reverse (drop_spaces (reverse s)) ≡ drop_end s
unfolding drop_end drop_spaces is_empty add_front
reverse-drop_spaces [] = refl
reverse-drop_spaces (c ∷ s) =
    ap (λ t. reverse (drop_spaces t)) (reverse-cons c s)
    ∙ ap reverse (drop_spaces-snoc (reverse s) c)
    ∙ by_front (drop_spaces (reverse s))
    ∙ ap (add_front c) (reverse-drop_spaces s)
  where
    by_front :
        (t : List ℕ)
        → reverse (if is_empty t then drop_spaces (c ∷ []) else t ++ c ∷ [])
          ≡ add_front c (reverse t)
    by_front [] = elim (Bool-cases (is_space c)) [ inl e ↦ rw e refl | inr e ↦ rw e refl ]
    by_front (x ∷ t) =
        reverse-append (x ∷ t) (c ∷ [])
        ∙ ap (λ r. c ∷ r) (reverse-cons x t)
        ∙ sym (add_front-snoc c (reverse t) x)
        ∙ ap (add_front c) (sym (reverse-cons x t))

trim-drop_end : (s : List ℕ) → trim s ≡ drop_end (drop_spaces s)
unfolding trim
trim-drop_end s = reverse-drop_spaces (drop_spaces s)

drop_spaces-before_comment :
    (line : List ℕ)
    → drop_spaces (before_comment (drop_spaces line)) ≡ before_comment (drop_spaces line)
unfolding drop_spaces before_comment
drop_spaces-before_comment [] = refl
drop_spaces-before_comment (c ∷ s) = elim (Bool-cases (is_space c)) [
  | inl e ↦ rw e (drop_spaces-before_comment s)
  | inr e ↦ rw e (elim (Bool-cases (c == 35)) [ inl h ↦ rw h refl | inr h ↦ rw h (rw e refl) ])
]

has_comment-drop_end : (s : List ℕ) → has_comment (drop_end s) ≡ has_comment s
unfolding has_comment drop_end add_front
has_comment-drop_end [] = refl
has_comment-drop_end (c ∷ s) = by_rest (drop_end s) (has_comment-drop_end s)
  where
    by_rest :
        (r : List ℕ)
        → has_comment r ≡ has_comment s
        → has_comment (add_front c r) ≡ (c == 35 || has_comment s)
    by_rest [] e = ground (arith, e)
    by_rest (x ∷ r) e = ap (λ b. c == 35 || b) e

before_comment-drop_end :
    (s : List ℕ) → has_comment s ≡ true → before_comment (drop_end s) ≡ before_comment s
unfolding has_comment before_comment drop_end add_front
before_comment-drop_end [] h = absurd (ground arith)
before_comment-drop_end (c ∷ s) h = elim (Bool-cases (c == 35)) [
  | inl e ↦ at_comment e (drop_end s)
  | inr e ↦
      by_rest e (drop_end s) (has_comment-drop_end s ∙ ground (arith, h, e))
        (before_comment-drop_end s (ground (arith, h, e)))
]
  where
    at_comment :
        (c == 35) ≡ true
        → (r : List ℕ)
        → before_comment (add_front c r) ≡ (if c == 35 then [] else c ∷ before_comment s)
    at_comment e [] = ap before_comment (add_front-other c (ground (arith, e))) ∙ rw e refl
    at_comment e (x ∷ r) = rw e refl

    by_rest :
        (c == 35) ≡ false
        → (r : List ℕ) → has_comment r ≡ true
        → before_comment r ≡ before_comment s
        → before_comment (add_front c r) ≡ (if c == 35 then [] else c ∷ before_comment s)
    by_rest e [] h b = absurd (ground (arith, h))
    by_rest e (x ∷ r) h b = rw e (ap (λ t. c ∷ t) b)

before_comment_without : (s : List ℕ) → has_comment s ≡ false → before_comment s ≡ s
unfolding has_comment before_comment
before_comment_without [] h = refl
before_comment_without (c ∷ s) h =
    if_false {b = c == 35} _ _ (ground (arith, h))
    ∙ ap (λ t. c ∷ t) (before_comment_without s (ground (arith, h)))

content_lem : (line : List ℕ) → content line ≡ drop_end (before_comment (drop_spaces line))
unfolding content
content_lem line = rw (trim-drop_end line) (
    rw (has_comment-drop_end u) (elim (Bool-cases (has_comment u)) [
      | inl h ↦
          if_true _ _ h
          ∙ ap trim (before_comment-drop_end u h)
          ∙ trim-drop_end (before_comment u)
          ∙ ap drop_end (drop_spaces-before_comment line)
      | inr h ↦ if_false _ _ h ∙ ap drop_end (sym (before_comment_without u h))
    ]))
  where
    u : List ℕ
    u = drop_spaces line

-- The digits that `drop_end` and `before_comment` leave, against the automaton.
unfoldable pub even_hex : Bool → List ℕ → Bool
even_hex odd [] = not odd
even_hex odd (c ∷ s) = is_hex c && even_hex (not odd) s

is_rest_lem : (s : List ℕ) → is_empty (drop_end (before_comment s)) ≡ is_rest s
unfolding is_rest before_comment drop_end is_empty add_front
is_rest_lem [] = refl
is_rest_lem (c ∷ s) = elim (Bool-cases (c == 35)) [
  | inl e ↦ rw e refl
  | inr e ↦ rw e (by_rest (drop_end (before_comment s)) (is_rest_lem s))
]
  where
    by_rest :
        (r : List ℕ) → is_empty r ≡ is_rest s → is_empty (add_front c r) ≡ (is_blank c && is_rest s)
    by_rest [] e = elim (Bool-cases (is_space c)) [
      | inl b ↦ ap is_empty (add_front-space c b) ∙ ground (arith, e, b)
      | inr b ↦ ap is_empty (add_front-other c b) ∙ ground (arith, b)
    ]
    by_rest (x ∷ r) e = ground (arith, e)

are_digits_lem :
    (odd : Bool) (s : List ℕ) → even_hex odd (drop_end (before_comment s)) ≡ are_digits odd s
unfolding even_hex are_digits before_comment drop_end add_front is_empty
are_digits_lem odd [] = refl
are_digits_lem odd (c ∷ s) = elim (Bool-cases (c == 35)) [
  | inl e ↦ ap (λ t. even_hex odd (drop_end t)) (if_true {b = c == 35} [] _ e) ∙ ground (arith, e)
  | inr e ↦
      rw e (by_rest (drop_end (before_comment s)) (is_rest_lem s) (are_digits_lem (not odd) s))
]
  where
    by_rest :
        (r : List ℕ)
        → is_empty r ≡ is_rest s
        → even_hex (not odd) r ≡ are_digits (not odd) s
        → even_hex odd (add_front c r) ≡ (
            if is_hex c
            then are_digits (not odd) s
            else not odd && (false || is_blank c && is_rest s))
    by_rest [] e d = elim (Bool-cases (is_space c)) [
      | inl b ↦ ap (even_hex odd) (add_front-space c b) ∙ ground (arith, e, b)
      | inr b ↦ ap (even_hex odd) (add_front-other c b) ∙ ground (arith, d, b)
    ]
    by_rest (x ∷ r) e d = ground (arith, e, d)

is_line_lem : (line : List ℕ) → are_digits false (drop_spaces line) ≡ is_line line
unfolding is_line drop_spaces are_digits
is_line_lem [] = refl
is_line_lem (c ∷ s) = elim (Bool-cases (is_blank c)) [
  | inl e ↦
      ap (are_digits false) (if_true {b = is_space c} _ _ e)
      ∙ is_line_lem s
      ∙ sym (if_true {b = is_blank c} _ _ e)
  | inr e ↦
      ap (are_digits false) (if_false {b = is_space c} _ _ e)
      ∙ sym (if_false {b = is_blank c} _ _ e)
]

-- What the code keeps of a line is an even number of digits exactly if the line is one.
pub even_hex-content : (line : List ℕ) → even_hex false (content line) ≡ is_line line
even_hex-content line =
    ap (even_hex false) (content_lem line)
    ∙ are_digits_lem false (drop_spaces line)
    ∙ is_line_lem line
