-- ===== src/Table/Ascii.antt =====
-- A concrete instance of the string functions of NGINX that src/lws_table.c calls: equality of the
-- bytes, and of the bytes in lower case.
use nginx_lws.Base.{
  ℕ, ◌+◌, ◌≡◌, refl, ap₂, ◌==◌, leb, if◌then◌else◌, Bool, true, false, ◌&&◌, List, [], ◌∷◌, arith,
}
use nginx_lws.Table.Defs.{Strings}

unfoldable pub same : List ℕ → List ℕ → Bool
same [] [] = true
same [] (b ∷ ys) = false
same (a ∷ xs) [] = false
same (a ∷ xs) (b ∷ ys) = (a == b) && same xs ys

pub same_refl : (a : List ℕ) → same a a ≡ true
unfolding same
same_refl [] = refl
same_refl (a ∷ xs) = ground (arith, same_refl xs)

pub same_eq : (a b : List ℕ) → same a b ≡ true → a ≡ b
unfolding same
same_eq [] [] h = refl
same_eq [] (b ∷ ys) h = absurd (ground arith)
same_eq (a ∷ xs) [] h = absurd (ground arith)
same_eq (a ∷ xs) (b ∷ ys) h =
    let e : a ≡ b = ground arith in
    let r : same xs ys ≡ true = ground arith in ap₂ ◌∷◌ e (same_eq xs ys r)

pub same_symm : (a b : List ℕ) → same a b ≡ true → same b a ≡ true
same_symm a b h = rw (same_eq a b h) (same_refl b)

pub same_trans : (a b c : List ℕ) → same a b ≡ true → same b c ≡ true → same a c ≡ true
same_trans a b c h k = rw (same_eq a b h) k

unfoldable pub lower : ℕ → ℕ
lower c = if leb 65 c && leb c 90 then c + 32 else c

unfoldable pub lowers : List ℕ → List ℕ
lowers [] = []
lowers (c ∷ cs) = lower c ∷ lowers cs

abbrev pub ascii : Strings
ascii = record {
  tolower = lower;
  strncmp = same;
  strncasecmp = λ a b. same (lowers a) (lowers b);
  strncmp_refl = same_refl;
  strncmp_symm = λ a b l h. same_symm a b h;
  strncmp_trans = λ a b c l m h k. same_trans a b c h k;
  strncasecmp_refl = λ a. same_refl (lowers a);
  strncasecmp_symm = λ a b l h. same_symm (lowers a) (lowers b) h;
  strncasecmp_trans = λ a b c l m h k. same_trans (lowers a) (lowers b) (lowers c) h k;
}
