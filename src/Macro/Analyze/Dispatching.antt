-- ===== src/Macro/Analyze/Dispatching.antt =====
-- The free interrupts suffice for the dispatchers, and each priority gets one.
use rtfm.Common.{
  All, In-All, ℕ, ◌+◌, ◌%◌, ◌≤◌, ◌≡◌, refl, ap, subst, ◌∙◌, ◌⊎◌, inl, inr, true, false, Bool-cases,
  none, some, List, [], ◌∷◌, ◌++◌, ok, ◌>>=◌, In, Distinct, arith, leb, nat_eq, string_eq, lookup,
  insert, modify, keys, keys-modify, In_keys-insert, In_keys-insert_self, In_keys-insert_old,
  In_keys-lookup, not_In_keys-lookup, suc, contains, contains→In, In-contains-false, length,
  length-le_of_Distinct, In-set_insert,
}
use rtfm.Macro.Syntax.{App, Ident, Tasks, Task, FreeInterrupt, FreeInterrupts}
use rtfm.Macro.Check.{collect_set, priorities}
use rtfm.Macro.Analyze.{
  Dispatcher, Dispatchers, Capacities, dispatch, dispatchers, insert_task, sort_tasks, fold,
}

-- The priorities of the list that are not known yet, each once, in order.
news : List ℕ → List ℕ → List ℕ
news known [] = []
news known (p ∷ ps) = elim (contains known p) [
  | true ↦ news known ps
  | false ↦ p ∷ news (p ∷ known) ps
]

news-old :
    (known : List ℕ) (p : ℕ) (ps : List ℕ)
    → contains known p ≡ true
    → news known (p ∷ ps) ≡ news known ps
unfolding news
news-old known p ps e = rw (e, news) refl

news-new :
    (known : List ℕ) (p : ℕ) (ps : List ℕ)
    → contains known p ≡ false
    → news known (p ∷ ps) ≡ p ∷ news (p ∷ known) ps
unfolding news
news-new known p ps e = rw (e, news) refl

news-In : (known ps : List ℕ) (a : ℕ) → In a (news known ps) → In a ps × (¬ (In a known))
unfolding news
news-In known [] a i = absurd i
news-In known (p ∷ ps) a i = elim (Bool-cases (contains known p)) [
  | inl old ↦ let (j, n) = news-In known ps a (rw (news-old known p ps old) at i) in (inr j, n)
  | inr new ↦ head new (news-In (p ∷ known) ps a) (rw (news-new known p ps new) at i)
]
  where
    head :
        contains known p ≡ false
        → (In a (news (p ∷ known) ps) → In a ps × (¬ (In a (p ∷ known))))
        → In a (p ∷ news (p ∷ known) ps)
        → In a (p ∷ ps) × (¬ (In a known))
    head new ih (inl e) = (inl e, subst (λ x. ¬ (In x known)) e (In-contains-false known p new))
    head new ih (inr j) = let (k, n) = ih j in (inr k, λ m. n (inr m))

news-Distinct : (known ps : List ℕ) → Distinct (news known ps)
unfolding news
news-Distinct known [] = tt
news-Distinct known (p ∷ ps) = elim (Bool-cases (contains known p)) [
  | inl old ↦ rw (news-old known p ps old) (news-Distinct known ps)
  | inr new ↦
      rw (news-new known p ps new)
        ((λ i. (news-In (p ∷ known) ps p i).1 (inl refl)), news-Distinct (p ∷ known) ps)
]

insert_task-In : (t u : Ident × Task) (us : Tasks) → In u (t ∷ us) → In u (insert_task t us)
insert_task-In t u [] i = i
insert_task-In t u (v ∷ us) i = elim (Bool-cases (leb t.1.args.priority v.1.args.priority)) [
  | inl e ↦ rw e i
  | inr e ↦ rw e (later i (insert_task-In t u us))
]
  where
    later :
        In u (t ∷ v ∷ us) → (In u (t ∷ us) → In u (insert_task t us)) → In u (v ∷ insert_task t us)
    later (inl p) h = inr (h (inl p))
    later (inr (inl p)) h = inl p
    later (inr (inr j)) h = inr (h (inr j))

In-insert_task : (t u : Ident × Task) (us : Tasks) → In u (insert_task t us) → In u (t ∷ us)
In-insert_task t u [] i = i
In-insert_task t u (v ∷ us) i = elim (Bool-cases (leb t.1.args.priority v.1.args.priority)) [
  | inl e ↦ rw e at i
  | inr e ↦ later (In-insert_task t u us) (rw e at i)
]
  where
    later :
        (In u (insert_task t us) → In u (t ∷ us)) → In u (v ∷ insert_task t us) → In u (t ∷ v ∷ us)
    later h (inl p) = inr (inl p)
    later h (inr j) = elim (h j) [ inl p ↦ inl p | inr k ↦ inr (inr k) ]

-- Sorting keeps the tasks.
pub sort_tasks-In : (u : Ident × Task) (ts : Tasks) → In u ts → In u (sort_tasks ts)
sort_tasks-In u [] i = i
sort_tasks-In u (t ∷ ts) (inl p) = insert_task-In t u (sort_tasks ts) (inl p)
sort_tasks-In u (t ∷ ts) (inr i) = insert_task-In t u (sort_tasks ts) (inr (sort_tasks-In u ts i))

pub In-sort_tasks : (u : Ident × Task) (ts : Tasks) → In u (sort_tasks ts) → In u ts
In-sort_tasks u [] i = i
In-sort_tasks u (t ∷ ts) i = elim (In-insert_task t u (sort_tasks ts) i) [
  | inl p ↦ inl p
  | inr j ↦ inr (In-sort_tasks u ts j)
]

collect_set-In : (a : ℕ) (ps : List ℕ) → In a ps → In a (collect_set ps)
collect_set-In a [] i = i
collect_set-In a (p ∷ ps) (inl e) = In-set_insert a p (collect_set ps) (inr e)
collect_set-In a (p ∷ ps) (inr i) = In-set_insert a p (collect_set ps) (inl (collect_set-In a ps i))

In-priorities :
    (p : ℕ) (ts : Tasks)
    → In p (priorities ts)
    → (e : Ident × Task) × In e ts × (e.1.args.priority ≡ p)
In-priorities p [] i = absurd i
In-priorities p (t ∷ ts) (inl q) = (t, inl refl, q)
In-priorities p (t ∷ ts) (inr i) = let (e, j, q) = In-priorities p ts i in (e, inr j, q)

pub priorities-In : (e : Ident × Task) (ts : Tasks) → In e ts → In e.1.args.priority (priorities ts)
priorities-In e [] i = i
priorities-In e (t ∷ ts) (inl p) = inl (ap (λ x. x.1.args.priority) p)
priorities-In e (t ∷ ts) (inr i) = inr (priorities-In e ts i)

-- The dispatchers that are created are no more than the priorities that the check counts.
news-length :
    (ts : Tasks)
    → length (news [] (priorities (sort_tasks ts))) ≤ length (collect_set (priorities ts))
news-length ts =
    length-le_of_Distinct (news [] (priorities (sort_tasks ts))) (collect_set (priorities ts))
      (news-Distinct [] (priorities (sort_tasks ts)))
      λ a i.
        let (e, j, p) =
          In-priorities a (sort_tasks ts) (news-In [] (priorities (sort_tasks ts)) a i).0 in
        collect_set-In a (priorities ts)
          (subst (λ x. In x (priorities ts)) p (priorities-In e ts (In-sort_tasks e ts j)))

-- The names of the tasks have capacities.
abbrev HasCapacities : Capacities → Tasks → Type 0
HasCapacities caps ts = (e : Ident × Task) → In e ts → (c : ℕ) × (lookup e.0 caps ≡ some c)

abbrev with_task : Dispatcher → ℕ → Ident → Dispatcher
with_task d c name = record d { capacity = (d.capacity + c) % 256; tasks = d.tasks ++ name ∷ [] }

abbrev fresh_dispatcher : Ident × FreeInterrupt → Dispatcher
fresh_dispatcher fi = record { attrs = fi.1.attrs; interrupt = fi.0; tasks = []; capacity = 0 }

module _ (caps : Capacities) (e : Ident × Task) (ds : Dispatchers) (c : ℕ)
    (lc : lookup e.0 caps ≡ some c) where
  dispatch_old :
      (d : Dispatcher) (free : FreeInterrupts)
      → lookup e.1.args.priority ds ≡ some d
      → dispatch false caps e (ds, free)
        ≡ ok (modify e.1.args.priority (λ _. with_task d c e.0) ds, free)
  unfolding dispatch
  dispatch_old d free l = ground (arith, l, lc)

  dispatch_new :
      (fi : Ident × FreeInterrupt) (free : FreeInterrupts)
      → lookup e.1.args.priority ds ≡ none
      → dispatch false caps e (ds, fi ∷ free)
        ≡ ok (
          modify e.1.args.priority
              (λ _. with_task (fresh_dispatcher fi) c e.0)
              (insert e.1.args.priority (fresh_dispatcher fi) ds),
          free,
        )
  unfolding dispatch
  dispatch_new fi free l = ground (arith, l, lc)

-- `known` holds the keys of the map.
record Knows (known : List ℕ) (ds : Dispatchers) : Type 0 where
  into : (p : ℕ) → In p known → In p (keys ds)
  back : (p : ℕ) → In p (keys ds) → In p known

Knows-modify :
    (known : List ℕ) (p : ℕ) (f : Dispatcher → Dispatcher) (ds : Dispatchers)
    → Knows known ds
    → Knows known (modify p f ds)
Knows-modify known p f ds k = record {
  into = λ q i. rw (keys-modify p f ds) (k.into q i);
  back = λ q i. k.back q (rw (keys-modify p f ds) at i);
}

Knows-insert :
    (known : List ℕ) (p : ℕ) (d : Dispatcher) (ds : Dispatchers)
    → Knows known ds
    → Knows (p ∷ known) (insert p d ds)
Knows-insert known p d ds k = record {
  into = λ q i. elim i [
    | inl e ↦ subst (λ x. In x (keys (insert p d ds))) e (In_keys-insert_self p d ds)
    | inr j ↦ In_keys-insert_old p q d ds (k.into q j)
  ];
  back = λ q i. elim (In_keys-insert p q d ds i) [ inl e ↦ inl e | inr j ↦ inr (k.back q j) ];
}

-- With a free interrupt for each priority that is new, the loop returns, and every priority of
-- the tasks has a dispatcher.
fold-dispatch :
    (caps : Capacities) (ts : Tasks) (known : List ℕ) (ds : Dispatchers) (free : FreeInterrupts)
    → HasCapacities caps ts
    → Knows known ds
    → length (news known (priorities ts)) ≤ length free
    → (r : Dispatchers × FreeInterrupts) × (fold (dispatch false caps) ts (ds, free) ≡ ok r)
      × ((p : ℕ) → In p known ⊎ In p (priorities ts) → In p (keys r.0))
fold-dispatch caps [] known ds free has k le =
    ((ds, free), refl, λ p i. elim i [ inl j ↦ k.into p j | inr j ↦ absurd j ])
fold-dispatch caps ((name, t) ∷ ts) known ds free has k le =
    let (c, lc) = has (name, t) (inl refl) in
    let p = t.args.priority in
    elim (Bool-cases (contains known p)) [
      | inl old ↦
          let (d, l) = In_keys-lookup p ds (k.into p (contains→In known p old)) in
          let ds' = modify p (λ _. with_task d c name) ds in
          let (r, er, all) =
            fold-dispatch caps ts known ds' free (λ e i. has e (inr i))
              (Knows-modify known p (λ _. with_task d c name) ds k)
              (subst (λ x. length x ≤ length free) (news-old known p (priorities ts) old) le) in
          (
            r,
            ap (λ o. o >>= λ s. fold (dispatch false caps) ts s)
                  (dispatch_old caps (name, t) ds c lc d free l)
                ∙ er,
            λ q i. elim i [
              | inl j ↦ all q (inl j)
              | inr j ↦ elim j [
                | inl e ↦ all q (inl (subst (λ x. In x known) e (contains→In known p old)))
                | inr m ↦ all q (inr m)
              ]
            ],
          )
      | inr new ↦
          let le' = subst (λ x. length x ≤ length free) (news-new known p (priorities ts) new) le in
          let (fi, rest, ef, le'') = first free le' in
          let ds' =
            modify p (λ _. with_task (fresh_dispatcher fi) c name)
              (insert p (fresh_dispatcher fi) ds) in
          let (r, er, all) =
            fold-dispatch caps ts (p ∷ known) ds' rest (λ e i. has e (inr i))
              (Knows-modify (p ∷ known) p (λ _. with_task (fresh_dispatcher fi) c name)
                (insert p (fresh_dispatcher fi) ds)
                (Knows-insert known p (fresh_dispatcher fi) ds k))
              le'' in
          (
            r,
            ap (λ x. fold (dispatch false caps) ((name, t) ∷ ts) (ds, x)) ef
                ∙ (ap (λ o. o >>= λ s. fold (dispatch false caps) ts s)
                      (dispatch_new caps (name, t) ds c lc fi rest
                        (not_In_keys-lookup p ds (λ i. In-contains-false known p new (k.back p i))))
                    ∙ er),
            λ q i. elim i [
              | inl j ↦ all q (inl (inr j))
              | inr j ↦ elim j [ inl e ↦ all q (inl (inl e)) | inr m ↦ all q (inr m) ]
            ],
          )
    ]
  where
    first :
        {n : ℕ} (free : FreeInterrupts)
        → suc n ≤ length free
        → (fi : Ident × FreeInterrupt) × (rest : FreeInterrupts) × (free ≡ fi ∷ rest)
          × (n ≤ length rest)
    first [] h = absurd (omega arith)
    first (fi ∷ rest) h = (fi, rest, refl, omega arith)

-- An application that passes the count of the check gets a dispatcher for each of its priorities.
pub dispatchers_total :
    (app : App) (caps : Capacities)
    → HasCapacities caps app.tasks
    → length (collect_set (priorities app.tasks)) ≤ length app.free_interrupts
    → (r : Dispatchers × FreeInterrupts) × (dispatchers false app caps ≡ ok r)
      × All (λ p. In p (keys r.0)) (priorities app.tasks)
unfolding dispatchers
dispatchers_total app caps has le =
    let (r, e, all) =
      fold-dispatch caps (sort_tasks app.tasks) [] [] app.free_interrupts
        (λ x i. has x (In-sort_tasks x app.tasks i)) (record { into = λ p i. i; back = λ p i. i })
        (omega (arith, news-length app.tasks)) in
    (
      r,
      e,
      In-All (λ p. In p (keys r.0)) (priorities app.tasks)
          λ p i.
            let (x, j, q) = In-priorities p app.tasks i in
            all p (
              inr (
                subst (λ y. In y (priorities (sort_tasks app.tasks))) q
                  (priorities-In x (sort_tasks app.tasks) (sort_tasks-In x app.tasks j)))),
    )
