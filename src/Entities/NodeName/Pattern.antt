-- ===== src/Entities/NodeName/Pattern.antt =====
-- The automaton of `nodeNamePattern` against a reading of the pattern label by label.
use mathlib.Core.Path.{fun_ext}
use multi_network_interface.Prelude.{
  ℕ, Bool, true, false, ◌||◌, ◌&&◌, List, [], ◌∷◌, ◌==◌, ◌≡◌, refl, ap, ◌∙◌, all, arith,
  if◌then◌else◌,
}
use multi_network_interface.Prelude.Text.{Text, split_on, split_on-cons}
use multi_network_interface.Entities.NodeName.{
  Place, start, inner, hyphen, is_alnum, after, advance, matches_from, node_name_matches,
}

abbrev pub is_label_char : ℕ → Bool
is_label_char c = is_alnum c || c == b'-'

abbrev pub starts_alnum : Text → Bool
starts_alnum [] = false
starts_alnum (c ∷ s) = is_alnum c

abbrev pub ends_alnum : Text → Bool
ends_alnum [] = false
ends_alnum (c ∷ []) = is_alnum c
ends_alnum (c ∷ d ∷ s) = ends_alnum (d ∷ s)

-- A DNS label: letters, digits and hyphens, with no hyphen at an end.
abbrev pub is_label : Text → Bool
is_label l = starts_alnum l && (all is_label_char l && ends_alnum l)

-- What the automaton asks of the rest of the label in which it stands.
abbrev rest_ok : Place → Text → Bool
rest_ok start l = is_label l
rest_ok inner [] = true
rest_ok inner (c ∷ l) = all is_label_char (c ∷ l) && ends_alnum (c ∷ l)
rest_ok hyphen l = all is_label_char l && ends_alnum l

abbrev labels_ok : Place → List Text → Bool
labels_ok p [] = false
labels_ok p (l ∷ ls) = rest_ok p l && all is_label ls

-- One character, in front of a text whose first part is `l`.
module _ (c : ℕ) (ls : List Text) where
  start_step :
      (l : Text)
      → after (advance start c) (λ q. labels_ok q (l ∷ ls))
        ≡ labels_ok start (if c == b'.' then [] ∷ l ∷ ls else (c ∷ l) ∷ ls)
  start_step [] = ground arith
  start_step (d ∷ l) = ground arith

  inner_step :
      (l : Text)
      → after (advance inner c) (λ q. labels_ok q (l ∷ ls))
        ≡ labels_ok inner (if c == b'.' then [] ∷ l ∷ ls else (c ∷ l) ∷ ls)
  inner_step [] = ground arith
  inner_step (d ∷ l) = ground arith

  hyphen_step :
      (l : Text)
      → after (advance hyphen c) (λ q. labels_ok q (l ∷ ls))
        ≡ labels_ok hyphen (if c == b'.' then [] ∷ l ∷ ls else (c ∷ l) ∷ ls)
  hyphen_step [] = ground arith
  hyphen_step (d ∷ l) = ground arith

step :
    (p : Place) (c : ℕ) (l : Text) (ls : List Text)
    → after (advance p c) (λ q. labels_ok q (l ∷ ls))
      ≡ labels_ok p (if c == b'.' then [] ∷ l ∷ ls else (c ∷ l) ∷ ls)
step start c l ls = start_step c ls l
step inner c l ls = inner_step c ls l
step hyphen c l ls = hyphen_step c ls l

matches_from-labels_ok : (p : Place) (s : Text) → matches_from p s ≡ labels_ok p (split_on b'.' s)
unfolding matches_from split_on
matches_from-labels_ok start [] = refl
matches_from-labels_ok inner [] = refl
matches_from-labels_ok hyphen [] = refl
matches_from-labels_ok p (c ∷ s) =
    let (l, ls, e) = split_on-cons b'.' s in
    ap (after (advance p c)) (fun_ext (λ q. matches_from-labels_ok q s)) ∙ rw e (step p c l ls)

-- A node name matches the pattern exactly when each of its parts between dots is a label.
pub node_name_matches-labels : (s : Text) → node_name_matches s ≡ all is_label (split_on b'.' s)
unfolding node_name_matches
node_name_matches-labels s =
    let (l, ls, e) = split_on-cons b'.' s in matches_from-labels_ok start s ∙ rw e refl
