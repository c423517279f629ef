-- ===== src/LruCache/Links.antt =====
-- The doubly linked list on the heap: what `prev` and `next` say of a list of cells.
use iitm.Prelude.{ℕ, ◌≡◌, ◌≢◌, refl, sym, ◌∙◌, ap, Option, some, List, [], ◌∷◌, ◌++◌, arith}
use iitm.Prelude.Int.{ℤ}
use iitm.SortedList.{All}
use iitm.LruCache.{Ptr, null, Node, LruCache, update, load, modify, store}

abbrev pub Heap : Type 0
Heap = Ptr → Option Node

-- a node of the list: its address, key and value
pub record Cell : Type 0 where
  pub at : Ptr
  pub key : ℤ
  pub value : ℤ

-- the address of the first cell, or `stop`
abbrev pub head_or : List Cell → Ptr → Ptr
head_or [] stop = stop
head_or (c ∷ xs) stop = c.at

-- the address of the last cell, or `start`
abbrev pub last_or : List Cell → Ptr → Ptr
last_or [] start = start
last_or (c ∷ xs) start = last_or xs c.at

abbrev pub node : Cell → Ptr → Ptr → Node
node c prev next = record { key = c.key; value = c.value; prev = prev; next = next }

-- the cells are linked both ways, after a cell at `start` and before one at `stop`
abbrev pub Seg : Heap → Ptr → List Cell → Ptr → Type 0
Seg h start [] stop = Unit
Seg h start (c ∷ xs) stop = (h c.at ≡ some (node c start (head_or xs stop))) × Seg h c.at xs stop

abbrev pub Avoids : Ptr → List Cell → Type 0
Avoids p xs = All (λ c. c.at ≢ p) xs

-- no two cells at one address, and none at NULL
abbrev pub Distinct : List Cell → Type 0
Distinct [] = Unit
Distinct (c ∷ xs) = (c.at ≢ null) × Avoids c.at xs × Distinct xs

pub update_self : {A : Type 0} (f : ℕ → A) (p : ℕ) (a : A) → update f p a p ≡ a
unfolding update
update_self f p a = ground arith

pub update_other : {A : Type 0} (f : ℕ → A) (p q : ℕ) (a : A) → q ≢ p → update f p a q ≡ f q
unfolding update
update_other f p q a ne = ground arith

-- a write elsewhere changes no segment
pub Seg-update :
    (h : Heap) (p : Ptr) (n : Option Node) (start : Ptr) (xs : List Cell) (stop : Ptr)
    → Avoids p xs
    → Seg h start xs stop
    → Seg (update h p n) start xs stop
Seg-update h p n start [] stop a s = tt
Seg-update h p n start (c ∷ xs) stop (a, as') (e, s) =
    (update_other h p c.at n a ∙ e, Seg-update h p n c.at xs stop as' s)

pub head_or-append :
    (xs ys : List Cell) (stop : Ptr) → head_or (xs ++ ys) stop ≡ head_or xs (head_or ys stop)
head_or-append [] ys stop = refl
head_or-append (c ∷ xs) ys stop = refl

pub last_or-append :
    (xs ys : List Cell) (start : Ptr) → last_or (xs ++ ys) start ≡ last_or ys (last_or xs start)
last_or-append [] ys start = refl
last_or-append (c ∷ xs) ys start = last_or-append xs ys c.at

pub Seg-append :
    (h : Heap) (start : Ptr) (xs ys : List Cell) (stop : Ptr)
    → Seg h start xs (head_or ys stop)
    → Seg h (last_or xs start) ys stop
    → Seg h start (xs ++ ys) stop
Seg-append h start [] ys stop s t = t
Seg-append h start (c ∷ xs) ys stop (e, s) t = (
  e ∙ ap (λ q. some (node c start q)) (sym (head_or-append xs ys stop)),
  Seg-append h c.at xs ys stop s t,
)

pub Seg-split :
    (h : Heap) (start : Ptr) (xs ys : List Cell) (stop : Ptr)
    → Seg h start (xs ++ ys) stop
    → Seg h start xs (head_or ys stop) × Seg h (last_or xs start) ys stop
Seg-split h start [] ys stop s = (tt, s)
Seg-split h start (c ∷ xs) ys stop (e, s) =
    let (t, u) = Seg-split h c.at xs ys stop s in
    ((e ∙ ap (λ q. some (node c start q)) (head_or-append xs ys stop), t), u)

pub last_or_ne : (c : Cell) (xs : List Cell) → Distinct (c ∷ xs) → last_or xs c.at ≢ null
last_or_ne c [] (n, a, d) = n
last_or_ne c (x ∷ xs) (n, a, d) = last_or_ne x xs d

-- an address that all cells avoid is not that of the last one
pub last_or-Avoids : (c : Cell) (xs : List Cell) (p : Ptr) → Avoids p (c ∷ xs) → last_or xs c.at ≢ p
last_or-Avoids c [] p (a, b) = a
last_or-Avoids c (x ∷ xs) p (a, b) = last_or-Avoids x xs p b

pub load-holds :
    (object : LruCache) (p : Ptr) {n : Node}
    → p ≢ null
    → object.heap p ≡ some n
    → load object p ≡ some n
unfolding load
load-holds object p ne e = ground arith

pub modify-holds :
    (object : LruCache) (p : Ptr) (f : Node → Node) {n : Node}
    → p ≢ null
    → object.heap p ≡ some n
    → modify object p f ≡ some (store object p (some (f n)))
unfolding modify
modify-holds object p f ne e = rw (load-holds object p ne e) refl

-- the last cell of a segment can be given another `next`
pub Seg-set_next :
    (object : LruCache) (start : Ptr) (c : Cell) (xs : List Cell) (stop stop' : Ptr)
    → Distinct (c ∷ xs)
    → Seg object.heap start (c ∷ xs) stop
    → (n : Node) × (object.heap (last_or xs c.at) ≡ some n)
      × Seg
          (update object.heap (last_or xs c.at) (some (record n { next = stop' })))
          start
          (c ∷ xs)
          stop'
Seg-set_next object start c [] stop stop' d (e, s) =
    (node c start stop, e, (update_self object.heap c.at _, tt))
Seg-set_next object start c (x ∷ xs) stop stop' (n, a, d) (e, s) =
    let (m, f, t) = Seg-set_next object c.at x xs stop stop' d s in
    (
      m,
      f,
      (
        update_other object.heap (last_or xs x.at) c.at _ (λ q. last_or-Avoids x xs c.at a (sym q))
            ∙ e,
        t,
      ),
    )

-- its first cell can be given another `prev`
pub Seg-set_prev :
    (object : LruCache) (start start' : Ptr) (c : Cell) (xs : List Cell) (stop : Ptr)
    → Distinct (c ∷ xs)
    → Seg object.heap start (c ∷ xs) stop
    → Seg (update object.heap c.at (some (node c start' (head_or xs stop)))) start' (c ∷ xs) stop
Seg-set_prev object start start' c xs stop (n, a, d) (e, s) =
    (update_self object.heap c.at _, Seg-update object.heap c.at _ c.at xs stop a s)

pub Avoids-append : (p : Ptr) (xs ys : List Cell) → Avoids p xs → Avoids p ys → Avoids p (xs ++ ys)
Avoids-append p [] ys a b = b
Avoids-append p (c ∷ xs) ys (a, as') b = (a, Avoids-append p xs ys as' b)

pub Avoids-split : (p : Ptr) (xs ys : List Cell) → Avoids p (xs ++ ys) → Avoids p xs × Avoids p ys
Avoids-split p [] ys a = (tt, a)
Avoids-split p (c ∷ xs) ys (a, b) = let (l, r) = Avoids-split p xs ys b in ((a, l), r)

-- the cells of two lists stand at different addresses
abbrev pub Apart : List Cell → List Cell → Type 0
Apart xs ys = All (λ c. Avoids c.at xs) ys

pub Apart-cons : (c : Cell) (xs ys : List Cell) → Avoids c.at ys → Apart xs ys → Apart (c ∷ xs) ys
Apart-cons c xs [] a b = tt
Apart-cons c xs (y ∷ ys) (n, a) (b, bs) = ((λ e. n (sym e), b), Apart-cons c xs ys a bs)

pub Distinct-split :
    (xs ys : List Cell) → Distinct (xs ++ ys) → Distinct xs × Distinct ys × Apart xs ys
Distinct-split [] ys d = (tt, d, All-Unit ys)
  where
    All-Unit : (ys : List Cell) → Apart [] ys
    All-Unit [] = tt
    All-Unit (y ∷ ys) = (tt, All-Unit ys)
Distinct-split (c ∷ xs) ys (n, a, d) =
    let (l, r, p) = Distinct-split xs ys d in
    let (b, b') = Avoids-split c.at xs ys a in ((n, b, l), r, Apart-cons c xs ys b' p)

Avoids-Apart : (c : Cell) (xs ys : List Cell) → Apart (c ∷ xs) ys → Avoids c.at ys × Apart xs ys
Avoids-Apart c xs [] p = (tt, tt)
Avoids-Apart c xs (y ∷ ys) ((n, a), p) =
    let (b, q) = Avoids-Apart c xs ys p in ((λ e. n (sym e), b), (a, q))

pub Distinct-append :
    (xs ys : List Cell) → Distinct xs → Distinct ys → Apart xs ys → Distinct (xs ++ ys)
Distinct-append [] ys d e p = e
Distinct-append (c ∷ xs) ys (n, a, d) e p =
    let (b, q) = Avoids-Apart c xs ys p in
    (n, Avoids-append c.at xs ys a b, Distinct-append xs ys d e q)

pub last_or-Apart : (c : Cell) (xs ys : List Cell) → Apart (c ∷ xs) ys → Avoids (last_or xs c.at) ys
last_or-Apart c xs [] p = tt
last_or-Apart c xs (y ∷ ys) (a, p) =
    (λ e. last_or-Avoids c xs y.at a (sym e), last_or-Apart c xs ys p)
