-- ===== src/LruCache/Moves.antt =====
-- `removeNode` and `addToHead`.
use iitm.Prelude.{
  ◌≡◌, ◌≢◌, refl, sym, ◌∙◌, ap, true, false, some, List, [], ◌∷◌, ◌++◌, ◌==◌, if◌then◌else◌, ◌>>=◌,
  Returns, Returns-bind, Returns-mono, arith,
}
use iitm.LruCache.{
  Ptr, null, Node, LruCache, modify, store, link_head, add_to_head, unlink_prev, unlink_next,
  remove_node, move_to_head,
}
use iitm.LruCache.Links.{
  Cell, head_or, last_or, node, Seg, Avoids, Distinct, update_self, update_other, Seg-update,
  Seg-append, Seg-split, last_or_ne, last_or-Avoids, load-holds, modify-holds, Seg-set_next,
  Seg-set_prev, Avoids-append, Avoids-split, Distinct-split, Distinct-append, last_or-Apart,
  head_or-append, last_or-append,
}

-- what the operations on the list leave alone
pub record Kept (object object' : LruCache) : Type 0 where
  pub capacity : object'.capacity ≡ object.capacity
  pub size : object'.size ≡ object.size
  pub hash_table : object'.hash_table ≡ object.hash_table

-- the list without the cell `c`, of which only `prev` and `next` still point into it
pub record Unlinked (object : LruCache) (ys : List Cell) (c : Cell) (zs : List Cell)
    (object' : LruCache) : Type 0 where
  pub kept : Kept object object'
  pub here : object'.heap c.at ≡ some (node c (last_or ys null) (head_or zs null))
  pub head : object'.head ≡ head_or (ys ++ zs) null
  pub tail : object'.tail ≡ last_or (ys ++ zs) null
  pub linked : Seg object'.heap null (ys ++ zs) null
  pub outside : (p : Ptr) → Avoids p (ys ++ c ∷ zs) → object'.heap p ≡ object.heap p

-- after the first half: `c` is still before `zs`
record Half (object : LruCache) (ys : List Cell) (c : Cell) (zs : List Cell) (object' : LruCache)
    : Type 0 where
  kept : Kept object object'
  tail : object'.tail ≡ object.tail
  here : object'.heap c.at ≡ some (node c (last_or ys null) (head_or zs null))
  head : object'.head ≡ head_or ys (head_or zs null)
  front : Seg object'.heap null ys (head_or zs null)
  back : Seg object'.heap c.at zs null
  outside : (p : Ptr) → Avoids p (ys ++ c ∷ zs) → object'.heap p ≡ object.heap p

-- the object stands for the cells
pub record IsList (object : LruCache) (xs : List Cell) : Type 0 where
  pub distinct : Distinct xs
  pub linked : Seg object.heap null xs null
  pub head : object.head ≡ head_or xs null
  pub tail : object.tail ≡ last_or xs null

unlink_prev-Half :
    (object : LruCache) (ys : List Cell) (c : Cell) (zs : List Cell)
    → IsList object (ys ++ c ∷ zs)
    → Returns (Half object ys c zs) (unlink_prev object c.at)
unfolding unlink_prev
unlink_prev-Half object [] c zs l = rw (load-holds object c.at l.distinct.0 l.linked.0) (record {
  kept = record { capacity = refl; size = refl; hash_table = refl };
  tail = refl;
  here = l.linked.0;
  head = refl;
  front = tt;
  back = l.linked.1;
  outside = λ p a. refl;
})
unlink_prev-Half object (y ∷ ys) c zs l =
    let (s, t) = Seg-split object.heap null (y ∷ ys) (c ∷ zs) null l.linked in
    let (d, d', a) = Distinct-split (y ∷ ys) (c ∷ zs) l.distinct in
    let (m, f, front) = Seg-set_next object null y ys c.at (head_or zs null) d s in
    let p : Ptr = last_or ys y.at in
    let ne : p ≢ null = last_or_ne y ys d in
    let test : (p == null) ≡ false = ground arith in
    rw
      (
        load-holds object c.at d'.0 t.0,
        test,
        modify-holds object p (λ m. record m { next = head_or zs null }) ne f,
      )
      (record {
        kept = record { capacity = refl; size = refl; hash_table = refl };
        tail = refl;
        here = update_other object.heap p c.at _ (λ e. last_or-Avoids y ys c.at a.0 (sym e)) ∙ t.0;
        head = l.head;
        front = front;
        back = Seg-update object.heap p _ c.at zs null (last_or-Apart y ys zs a.1) t.1;
        outside = λ q b.
            update_other object.heap p q _
              (λ e. last_or-Avoids y ys q (Avoids-split q (y ∷ ys) (c ∷ zs) b).0 (sym e));
      })

unlink_next-Unlinked :
    (object object' : LruCache) (ys : List Cell) (c : Cell) (zs : List Cell)
    → Distinct (ys ++ c ∷ zs)
    → object.tail ≡ last_or (ys ++ c ∷ zs) null
    → Half object ys c zs object'
    → Returns (Unlinked object ys c zs) (unlink_next object' c.at)
unfolding unlink_next
unlink_next-Unlinked object object' ys c [] d e r =
    let (d', d'', a) = Distinct-split ys (c ∷ []) d in
    rw (load-holds object' c.at d''.0 r.here) (record {
      kept = record {
        capacity = r.kept.capacity;
        size = r.kept.size;
        hash_table = r.kept.hash_table;
      };
      here = r.here;
      head = r.head ∙ sym (head_or-append ys [] null);
      tail = sym (last_or-append ys [] null);
      linked = Seg-append object'.heap null ys [] null r.front tt;
      outside = r.outside;
    })
unlink_next-Unlinked object object' ys c (z ∷ zs) d e r =
    let (d', d'', a) = Distinct-split ys (c ∷ z ∷ zs) d in
    let (n, b, dz) = d'' in
    let test : (z.at == null) ≡ false = is_false z.at dz.0 in
    rw
      (
        load-holds object' c.at n r.here,
        test,
        modify-holds object' z.at (λ m. record m { prev = last_or ys null }) dz.0 r.back.0,
      )
      (record {
        kept = record {
          capacity = r.kept.capacity;
          size = r.kept.size;
          hash_table = r.kept.hash_table;
        };
        here = update_other object'.heap z.at c.at _ (λ q. b.0 (sym q)) ∙ r.here;
        head = r.head ∙ sym (head_or-append ys (z ∷ zs) null);
        tail =
            r.tail
            ∙ e
            ∙ last_or-append ys (c ∷ z ∷ zs) null
            ∙ sym (last_or-append ys (z ∷ zs) null);
        linked =
            Seg-append _ null ys (z ∷ zs) null
              (Seg-update object'.heap z.at _ null ys z.at a.1.0 r.front)
              (Seg-set_prev object' c.at (last_or ys null) z zs null dz r.back);
        outside = λ q av.
            update_other object'.heap z.at q _
              (λ x. (Avoids-split q ys (c ∷ z ∷ zs) av).1.1.0 (sym x))
            ∙ r.outside q av;
      })
  where
    is_false : (p : Ptr) → p ≢ null → (p == null) ≡ false
    is_false p ne = ground arith

-- `removeNode` takes the cell out of the list.
pub remove_node-Unlinked :
    (object : LruCache) (ys : List Cell) (c : Cell) (zs : List Cell)
    → IsList object (ys ++ c ∷ zs)
    → Returns (Unlinked object ys c zs) (remove_node object c.at)
unfolding remove_node
remove_node-Unlinked object ys c zs l =
    Returns-bind (Half object ys c zs) (Unlinked object ys c zs) (unlink_prev object c.at) _
      (unlink_prev-Half object ys c zs l)
      (λ object' r. unlink_next-Unlinked object object' ys c zs l.distinct l.tail r)

-- the list with a new first cell
pub record Fronted (object : LruCache) (c : Cell) (xs : List Cell) (object' : LruCache)
    : Type 0 where
  pub kept : Kept object object'
  pub list : IsList object' (c ∷ xs)
  pub outside : (p : Ptr) → Avoids p (c ∷ xs) → object'.heap p ≡ object.heap p

link_head-Fronted :
    (object : LruCache) (c : Cell) (xs : List Cell)
    → IsList object xs
    → Distinct (c ∷ xs)
    → Returns (Fronted object c xs) (
        link_head (store object c.at (some (node c null object.head))) c.at >>= λ o.
        some (record o { head = c.at; tail = if o.tail == null then c.at else o.tail }))
unfolding link_head
link_head-Fronted object c [] l d =
    let test : (object.head == null) ≡ true = ground (arith, l.head) in
    let test' : (object.tail == null) ≡ true = ground (arith, l.tail) in
    rw (test, test')
      (record {
        kept = record { capacity = refl; size = refl; hash_table = refl };
        list = record {
          distinct = d;
          linked = (update_self object.heap c.at _ ∙ ap (λ q. some (node c null q)) l.head, tt);
          head = refl;
          tail = refl;
        };
        outside = λ p a. update_other object.heap c.at p _ (λ e. a.0 (sym e));
      })
link_head-Fronted object c (x ∷ xs) l d =
    let o = store object c.at (some (node c null object.head)) in
    let test : (object.head == null) ≡ false = is_false object.head x.at l.head d.2.0 in
    let test' : (object.tail == null) ≡ false =
      is_false object.tail (last_or xs x.at) l.tail (last_or_ne x xs d.2) in
    let f = λ (n : Node). record n { prev = c.at } in
    let here =
      update_other object.heap c.at x.at (some (node c null object.head)) d.1.0 ∙ l.linked.0 in
    let e : modify o object.head f ≡ some (store o x.at (some (node x c.at (head_or xs null)))) =
      ap (λ p. modify o p f) l.head ∙ modify-holds o x.at f d.2.0 here in
    rw (test, e, test')
      (record {
        kept = record { capacity = refl; size = refl; hash_table = refl };
        list = record {
          distinct = d;
          linked = (
            update_other o.heap x.at c.at _ (λ q. d.1.0 (sym q))
                ∙ update_self object.heap c.at _
                ∙ ap (λ q. some (node c null q)) l.head,
            Seg-set_prev o null c.at x xs null d.2
                (Seg-update object.heap c.at _ null (x ∷ xs) null d.1 l.linked),
          );
          head = refl;
          tail = l.tail;
        };
        outside = λ p a.
            update_other o.heap x.at p _ (λ q. a.1.0 (sym q))
            ∙ update_other object.heap c.at p _ (λ q. a.0 (sym q));
      })
  where
    is_false : (p q : Ptr) → p ≡ q → q ≢ null → (p == null) ≡ false
    is_false p q e ne = ground arith

-- `addToHead` puts an allocated cell in front of the list.
pub add_to_head-Fronted :
    (object : LruCache) (c : Cell) (xs : List Cell) (prev next : Ptr)
    → IsList object xs
    → Distinct (c ∷ xs)
    → object.heap c.at ≡ some (node c prev next)
    → Returns (Fronted object c xs) (add_to_head object c.at)
unfolding add_to_head
add_to_head-Fronted object c xs prev next l d e =
    rw (modify-holds object c.at (λ n. record n { next = object.head; prev = null }) d.0 e)
      (link_head-Fronted object c xs l d)

-- `moveToHead` moves a cell to the front.
pub move_to_head-Fronted :
    (object : LruCache) (ys : List Cell) (c : Cell) (zs : List Cell)
    → IsList object (ys ++ c ∷ zs)
    → Returns (Fronted object c (ys ++ zs)) (move_to_head object c.at)
unfolding move_to_head
move_to_head-Fronted object ys c zs l =
    Returns-bind (Unlinked object ys c zs) (Fronted object c (ys ++ zs)) (remove_node object c.at) _
      (remove_node-Unlinked object ys c zs l)
      (λ o u.
        let (d, d', a) = Distinct-split ys (c ∷ zs) l.distinct in
        let d'' = Distinct-append ys zs d d'.2 a.1 in
        let list : IsList o (ys ++ zs) = record {
          distinct = d'';
          linked = u.linked;
          head = u.head;
          tail = u.tail;
        } in
        Returns-mono (Fronted o c (ys ++ zs)) (Fronted object c (ys ++ zs)) (add_to_head o c.at)
          (add_to_head-Fronted o c (ys ++ zs) _ _ list
            (d'.0, Avoids-append c.at ys zs a.0 d'.1, d'') u.here)
          (λ o' r. record {
            kept = record {
              capacity = r.kept.capacity ∙ u.kept.capacity;
              size = r.kept.size ∙ u.kept.size;
              hash_table = r.kept.hash_table ∙ u.kept.hash_table;
            };
            list = r.list;
            outside = λ p av.
                let (b, b') = Avoids-split p ys zs av.1 in
                r.outside p av ∙ u.outside p (Avoids-append p ys (c ∷ zs) b (av.0, b'));
          }))
