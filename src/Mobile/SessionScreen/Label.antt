-- ===== src/Mobile/SessionScreen/Label.antt =====
-- What projectLabel makes of a path.
use cucoudle.Prelude.{
  ℕ, ◌≡◌, refl, sym, ap, ◌∙◌, subst, length-append, true, false, not, List, [], ◌∷◌, ◌++◌, all,
  arith, append_nil, append_assoc, if◌then◌else◌,
}
use cucoudle.Mobile.SessionScreen.{is_separator, without_end, last_part, project_label}

without_end-separators : (ends : List ℕ) → all is_separator ends ≡ true → without_end ends ≡ []
unfolding without_end
without_end-separators [] h = refl
without_end-separators (c ∷ ends) h =
    rw (without_end-separators ends (ground (arith, h)), without_end) (ground (arith, h))

-- A name of at least one character, which ends in no separator, stays.
without_end-name :
    (path : List ℕ) (c : ℕ) (name ends : List ℕ)
    → all (λ d. not (is_separator d)) (c ∷ name) ≡ true
    → all is_separator ends ≡ true
    → without_end (path ++ c ∷ name ++ ends) ≡ path ++ c ∷ name
unfolding without_end
without_end-name [] c [] ends h k = rw (without_end-separators ends k) (ground (arith, h))
without_end-name [] c (d ∷ name) ends h k =
    rw (without_end-name [] d name ends (ground (arith, h)) k) (ground (arith, h))
without_end-name (b ∷ path) c name ends h k =
    rw (without_end-name path c name ends h k) (ground (arith, length-append path (c ∷ name)))

other : (c : ℕ) → not (is_separator c) ≡ true → is_separator c ≡ false
other c h = ground (arith, h)

last_part-name :
    (seen name : List ℕ)
    → all (λ d. not (is_separator d)) name ≡ true
    → last_part seen name ≡ seen ++ name
unfolding last_part
last_part-name seen [] h = sym (append_nil seen)
last_part-name seen (c ∷ name) h =
    ap (λ b. last_part (if b then [] else seen ++ c ∷ []) name) (other c (ground (arith, h)))
    ∙ last_part-name (seen ++ c ∷ []) name (ground (arith, h))
    ∙ append_assoc seen (c ∷ []) name

last_part-behind :
    (seen path : List ℕ) (separator : ℕ) (name : List ℕ)
    → is_separator separator ≡ true
    → all (λ d. not (is_separator d)) name ≡ true
    → last_part seen (path ++ separator ∷ name) ≡ name
unfolding last_part
last_part-behind seen [] separator name h k =
    ap (λ b. last_part (if b then [] else seen ++ separator ∷ []) name) h ∙ last_part-name [] name k
last_part-behind seen (c ∷ path) separator name h k =
    last_part-behind (if is_separator c then [] else seen ++ c ∷ []) path separator name h k

-- The label of a path is the name of its last directory, whichever separators stand between and behind
-- the names.
pub project_label-directory :
    (path : List ℕ) (separator first : ℕ) (name ends : List ℕ)
    → is_separator separator ≡ true
    → all (λ d. not (is_separator d)) (first ∷ name) ≡ true
    → all is_separator ends ≡ true
    → project_label ((path ++ separator ∷ first ∷ name) ++ ends) ≡ first ∷ name
unfolding project_label
project_label-directory path separator first name ends h k l =
    let whole : ((path ++ separator ∷ []) ++ first ∷ name) ≡ path ++ separator ∷ first ∷ name =
      append_assoc path (separator ∷ []) (first ∷ name) in
    let cut =
      subst (λ q. without_end (q ++ ends) ≡ q) whole
        (without_end-name (path ++ separator ∷ []) first name ends k l) in
    rw (cut, last_part-behind [] path separator (first ∷ name) h k) (ground arith)
