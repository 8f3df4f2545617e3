-- ===== src/Bcache/Ring.antt =====
-- Doubly linked segments: `Chain next prev a xs b` runs from `a` through `xs` to `b`.
use os_t.Prelude.{ℕ, ◌≡◌, sym, subst, ap, ◌∙◌, ◌≢◌, List, [], ◌∷◌, ◌++◌, arith, update}

pub data Chain (next prev : ℕ → ℕ) : ℕ → List ℕ → ℕ → Type 0 where
  end : {a b : ℕ} → next a ≡ b → prev b ≡ a → Chain next prev a [] b
  link :
      {a x b : ℕ} {xs : List ℕ}
      → next a ≡ x
      → prev x ≡ a
      → Chain next prev x xs b
      → Chain next prev a (x ∷ xs) b

-- `x` is none of `xs`.
abbrev pub Fresh : ℕ → List ℕ → Type 0
Fresh x [] = Unit
Fresh x (y ∷ ys) = (x ≢ y) × Fresh x ys

abbrev pub Distinct : List ℕ → Type 0
Distinct [] = Unit
Distinct (x ∷ xs) = Fresh x xs × Distinct xs

-- The buffer behind `a`, and the one before `b`, are in the segment.
pub Chain-next :
    {n p : ℕ → ℕ} {a b c : ℕ} {xs : List ℕ} → Chain n p a xs b → Fresh c xs → c ≢ b → c ≢ n a
Chain-next (end e f) fr ne = λ h. ne (h ∙ e)
Chain-next (link e f ch) fr ne = λ h. fr.0 (h ∙ e)

pub Chain-prev :
    {n p : ℕ → ℕ} {a b c : ℕ} {xs : List ℕ} → Chain n p a xs b → c ≢ a → Fresh c xs → c ≢ p b
Chain-prev (end e f) ne fr = λ h. ne (h ∙ f)
Chain-prev (link e f ch) ne fr = Chain-prev ch fr.0 fr.1

-- Links that change elsewhere.
pub Chain-frame :
    {n p : ℕ → ℕ} {a b : ℕ} {xs : List ℕ} (i v j w : ℕ)
    → Chain n p a xs b
    → i ≢ a
    → Fresh i xs
    → Fresh j xs
    → j ≢ b
    → Chain (update n i v) (update p j w) a xs b
Chain-frame i v j w (end e f) ia ix jx jb = end (ground arith) (ground arith)
Chain-frame i v j w (link e f ch) ia ix jx jb =
    link (ground arith) (ground arith) (Chain-frame i v j w ch ix.0 ix.1 jx.1 jb)

-- A buffer that is in no segment goes in front of one.
pub Chain-front :
    {n p : ℕ → ℕ} {h : ℕ} {xs : List ℕ} (b : ℕ)
    → Chain n p h xs h
    → b ≢ h
    → Fresh b xs
    → Fresh h xs
    → Distinct xs
    → Chain (update (update n b (n h)) h b) (update (update p b h) (n h) b) h (b ∷ xs) h
Chain-front {n} {p} {h} b (end e f) bh bx hx dx =
    link (ground arith) (ground arith) (end (ground arith) (ground arith))
Chain-front {n} {p} {h} b (link {x} {xs} e f ch) bh bx hx dx = link (ground arith) (ground arith) (
    link (ground arith) (ground arith) (
      Chain-frame h b (n h) b (Chain-frame b (n h) b h ch bx.0 bx.1 bx.1 bh) hx.0 hx.1
        (subst (λ y. Fresh y xs) (sym e) dx.0) (λ q. hx.0 (sym q ∙ e))))

-- No element of the first list is in the second.
abbrev pub Apart : List ℕ → List ℕ → Type 0
Apart [] ys = Unit
Apart (x ∷ xs) ys = Fresh x ys × Apart xs ys

pub Chain-split :
    {n p : ℕ → ℕ} {a e : ℕ} (xs : List ℕ) (b : ℕ) (ys : List ℕ)
    → Chain n p a (xs ++ (b ∷ ys)) e
    → Chain n p a xs b × Chain n p b ys e
Chain-split [] b ys (link g k ch) = (end g k, ch)
Chain-split (x ∷ xs) b ys (link g k ch) = let (l, r) = Chain-split xs b ys ch in (link g k l, r)

-- What is behind `b` is linked to what is before it.
Chain-close :
    {n p : ℕ → ℕ} {a b e : ℕ} {ys : List ℕ}
    → n a ≡ b
    → p b ≡ a
    → Chain n p b ys e
    → Fresh a ys
    → Distinct ys
    → Fresh e ys
    → Chain (update n (p b) (n b)) (update p (n b) (p b)) a ys e
Chain-close g k (end e f) ay dy ey = end (ground arith) (ground arith)
Chain-close {n} {p} {b = b} g k (link {x} {xs} e f ch) ay dy ey =
    link (ground arith) (ground arith) (
      Chain-frame (p b) (n b) (n b) (p b) ch (λ q. ay.0 (sym k ∙ q))
        (subst (λ y. Fresh y xs) (sym k) ay.1) (subst (λ y. Fresh y xs) (sym e) dy.0)
        (λ q. ey.0 (sym q ∙ e)))

-- Taking out the buffer between two segments.
pub Chain-join :
    {n p : ℕ → ℕ} {a b e : ℕ} {xs ys : List ℕ}
    → Chain n p a xs b
    → Chain n p b ys e
    → Fresh a xs
    → Distinct xs
    → Fresh e xs
    → Fresh a ys
    → Distinct ys
    → Fresh e ys
    → Apart xs ys
    → Chain (update n (p b) (n b)) (update p (n b) (p b)) a (xs ++ ys) e
Chain-join (end g k) d ax dx ex ay dy ey ap = Chain-close g k d ay dy ey
Chain-join {n} {p} {a} {b} (link {x} {xs} g k ch) d ax dx ex ay dy ey ap =
    let before : a ≢ p b = Chain-prev ch ax.0 ax.1 in
    let behind : x ≢ n b = Chain-next d ap.0 (λ q. ex.0 (sym q)) in
    link (ground arith) (ground arith) (Chain-join ch d dx.0 dx.1 ex.1 ap.0 dy ey ap.1)
