-- ===== src/Scheduler/Link/Pairs.antt =====
-- Two flows have at most one link, and a flow that exits leaves none.
use bytecode_vm.Prelude.{
  ℕ, ◌≡◌, ◌≢◌, ◌⊎◌, ◌↔◌, inl, inr, refl, sym, ◌∙◌, ap, subst, Bool, true, false, ◌||◌, ◌==◌, ==_iff,
  Option, none, some, [], ◌∷◌, if◌then◌else◌, arith,
}
use bytecode_vm.Prelude.Maps.{
  nat_key, get, insert, remove, retain, HasDistinctKeys, get-remove, insert-cases, retain-of,
  retain-HasDistinctKeys, remove-HasDistinctKeys, insert-HasDistinctKeys, get-retain, retain-passes,
}
use bytecode_vm.Prelude.Result.{Result, ok, err}
use bytecode_vm.Scheduler.Error.{LifecycleError, not_owner}
use bytecode_vm.Scheduler.Link.{
  Link, LinkTable, joins, any_joins, link_if, link, unlink_if, unlink_owned, peer_of, is_apart,
  push_peer, peers, remove_links_of,
}

pub record IsSound (t : LinkTable) : Type 0 where
  pub is_distinct : HasDistinctKeys t
  pub not_self : (id : ℕ) (l : Link) → get id t ≡ some l → l.a ≢ l.b
  pub one_each :
      (id j : ℕ) (l m : Link)
      → get id t ≡ some l
      → get j t ≡ some m
      → joins l.a l.b m ≡ true
      → id ≡ j

-- The operations of the table, one after another. A new number is not in use.
pub data Reaches : LinkTable → Type 0 where
  started : Reaches []
  linked : {t : LinkTable} → Reaches t → (id a b : ℕ) → get id t ≡ none → Reaches (link id a b t).1
  unlinked : {t : LinkTable} → Reaches t → (owner id : ℕ) → Reaches (unlink_owned owner id t).1
  exited : {t : LinkTable} → Reaches t → (target : ℕ) → Reaches (remove_links_of target t).1

-- Fewer links of a sound table.
fewer :
    (t u : LinkTable)
    → HasDistinctKeys u
    → ((id : ℕ) (l : Link) → get id u ≡ some l → get id t ≡ some l)
    → IsSound t
    → IsSound u
fewer t u d old s = record {
  is_distinct = d;
  not_self = λ id l h. s.not_self id l (old id l h);
  one_each = λ id j l m h k e. s.one_each id j l m (old id l h) (old j m k) e;
}

joins_sym : (l m : Link) → joins l.a l.b m ≡ joins m.a m.b l
unfolding joins
joins_sym l m = ground (arith, ==_iff l.a m.a, ==_iff l.b m.b, ==_iff l.a m.b, ==_iff l.b m.a)

any_joins-get :
    (a b id : ℕ) (l : Link) (t : LinkTable)
    → any_joins a b t ≡ false
    → get id t ≡ some l
    → joins a b l ≡ false
unfolding any_joins get
any_joins-get a b id l [] h e = cc
any_joins-get a b id l ((j, m) ∷ t) h e = ground (arith, any_joins-get a b id l t, ==_iff j id)

linked-IsSound :
    (id a b : ℕ) (t : LinkTable)
    → get id t ≡ none
    → a == b ≡ false
    → any_joins a b t ≡ false
    → IsSound t
    → IsSound (insert id (record { a = a; b = b }) t)
linked-IsSound id a b t fresh other free s = record {
  is_distinct = insert-HasDistinctKeys id (record { a = a; b = b }) t s.is_distinct;
  not_self = λ i l h. elim (insert-cases id i (record { a = a; b = b }) l t h) [
    | inl (_, same) ↦ subst (λ (x : Link). x.a ≢ x.b) same (λ e. cc (other, (==_iff a b).1 e))
    | inr (_, old) ↦ s.not_self i l old
  ];
  one_each = λ i j l m h k e. elim (insert-cases id i (record { a = a; b = b }) l t h) [
    | inl (p, same) ↦ elim (insert-cases id j (record { a = a; b = b }) m t k) [
      | inl (q, _) ↦ sym p ∙ q
      | inr (_, old) ↦
          cc (any_joins-get a b j m t free old, ap (λ (x : Link). joins x.a x.b m) same, e)
    ]
    | inr (_, old) ↦ elim (insert-cases id j (record { a = a; b = b }) m t k) [
      | inl (_, same) ↦ cc (
        any_joins-get a b i l t free old,
        ap (λ (x : Link). joins x.a x.b l) same,
        joins_sym l m,
        e,
      )
      | inr (_, old') ↦ s.one_each i j l m old old' e
    ]
  ];
}

link-IsSound :
    (id a b : ℕ) (t : LinkTable) → get id t ≡ none → IsSound t → IsSound (link id a b t).1
unfolding link
link-IsSound id a b t fresh s = at_tests (a == b) (any_joins a b t) refl refl
  where
    at_tests :
        (self old : Bool)
        → a == b ≡ self
        → any_joins a b t ≡ old
        → IsSound (link_if self old id a b t).1
    at_tests true old e k = s
    at_tests false true e k = s
    at_tests false false e k = linked-IsSound id a b t fresh e k s

unlink_owned-IsSound :
    (owner id : ℕ) (t : LinkTable) → IsSound t → IsSound (unlink_owned owner id t).1
unfolding unlink_owned
unlink_owned-IsSound owner id t s = at_link (get id t)
  where
    removed : IsSound (remove id t)
    removed =
        fewer t (remove id t) (remove-HasDistinctKeys id t s.is_distinct)
          (λ j l h. ground (arith, get-remove id j t, h)) s

    at_test :
        (l : Link) (b : Bool)
        → IsSound
            (if◌then◌else◌ {A = Result LifecycleError (Unit {0}) × LinkTable} b
              (ok tt, remove id t)
              (err not_owner, t)).1
    at_test l true = removed
    at_test l false = s

    at_link : (o : Option Link) → IsSound (unlink_if owner id o t).1
    at_link none = s
    at_link (some l) = at_test l (l.a == owner || l.b == owner)

remove_links_of-IsSound :
    (target : ℕ) (t : LinkTable) → IsSound t → IsSound (remove_links_of target t).1
unfolding remove_links_of
remove_links_of-IsSound target t s =
    fewer t (retain (is_apart target) t) (retain-HasDistinctKeys (is_apart target) t s.is_distinct)
      (λ id l h. retain-of (is_apart target) id l t s.is_distinct h) s

-- In every table that links, unlinks and exits reach from an empty one, where a new link gets a
-- number that is not in use: no flow is linked to itself, and two flows have at most one link,
-- whichever of the two asked for it.
pub links-IsSound : (t : LinkTable) → Reaches t → IsSound t
unfolding get HasDistinctKeys
links-IsSound _ started = record {
  is_distinct = tt;
  not_self = λ id l h. cc;
  one_each = λ id j l m h k e. cc;
}
links-IsSound _ (linked {t} r id a b fresh) = link-IsSound id a b t fresh (links-IsSound t r)
links-IsSound _ (unlinked {t} r owner id) = unlink_owned-IsSound owner id t (links-IsSound t r)
links-IsSound _ (exited {t} r target) = remove_links_of-IsSound target t (links-IsSound t r)

abbrev peer_in : ℕ → Option Link → Option ℕ
peer_in target none = none
peer_in target (some l) = peer_of target l

peers-get :
    (target id : ℕ) (t : LinkTable)
    → HasDistinctKeys t
    → get id (peers target t) ≡ peer_in target (get id t)
unfolding peers get HasDistinctKeys
peers-get target id [] d = refl
peers-get target id ((j, l) ∷ t) (new, d) =
    at_key (j == id) (peer_of target l) refl refl (peers-get target id t d)
  where
    at_key :
        (b : Bool) (p : Option ℕ)
        → j == id ≡ b
        → peer_of target l ≡ p
        → get id (peers target t) ≡ peer_in target (get id t)
        → get id (push_peer j p (peers target t)) ≡ peer_in target (if b then some l else get id t)
    at_key true none e q ih =
        ih ∙ ap (peer_in target) (subst (λ x. get x t ≡ none) ((==_iff j id).0 e) new) ∙ sym q
    at_key true (some peer) e q ih = ground (arith, e) ∙ sym q
    at_key false none e q ih = ih
    at_key false (some peer) e q ih = ground (arith, e, ih)

peers-HasDistinctKeys :
    (target : ℕ) (t : LinkTable) → HasDistinctKeys t → HasDistinctKeys (peers target t)
unfolding peers HasDistinctKeys
peers-HasDistinctKeys target [] d = tt
peers-HasDistinctKeys target ((j, l) ∷ t) (new, d) =
    at_peer (peer_of target l) (peers-HasDistinctKeys target t d)
  where
    at_peer :
        (p : Option ℕ)
        → HasDistinctKeys (peers target t)
        → HasDistinctKeys (push_peer j p (peers target t))
    at_peer none ih = ih
    at_peer (some peer) ih = (peers-get target j t d ∙ ap (peer_in target) new, ih)

-- A link between a flow and a peer, whichever end the flow is.
abbrev pub IsBetween : ℕ → ℕ → Link → Type 0
IsBetween target peer l = ((l.a ≡ target) × (l.b ≡ peer)) ⊎ ((l.b ≡ target) × (l.a ≡ peer))

peer_of_iff :
    (target peer : ℕ) (l : Link) → (peer_of target l ≡ some peer) ↔ IsBetween target peer l
unfolding peer_of
peer_of_iff target peer l = at_ends (l.a == target) (l.b == target) refl refl
  where
    at_ends :
        (a b : Bool)
        → l.a == target ≡ a
        → l.b == target ≡ b
        → ((if a then some l.b else if b then some l.a else none) ≡ some peer)
          ↔ IsBetween target peer l
    at_ends true b e k =
        let at_a : l.a ≡ target = (==_iff l.a target).0 e in
        (
          λ h. inl (at_a, cc h),
          λ h. elim h [ inl (_, p) ↦ cc p | inr (at_b, p) ↦ cc (at_a, at_b, p) ],
        )
    at_ends false true e k =
        let at_b : l.b ≡ target = (==_iff l.b target).0 k in
        (
          λ h. inr (at_b, cc h),
          λ h. elim h [ inl (at_a, _) ↦ cc (e, (==_iff l.a target).1 at_a) | inr (_, p) ↦ cc p ],
        )
    at_ends false false e k = (
      λ h. cc,
      λ h. elim h [
        | inl (at_a, _) ↦ cc (e, (==_iff l.a target).1 at_a)
        | inr (at_b, _) ↦ cc (k, (==_iff l.b target).1 at_b)
      ],
    )

is_apart_iff :
    (target id : ℕ) (l : Link) → (is_apart target id l ≡ true) ↔ ((l.a ≢ target) × (l.b ≢ target))
unfolding is_apart peer_of
is_apart_iff target id l = ground (arith, ==_iff l.a target, ==_iff l.b target)

-- In a table of distinct links, the exit of a flow reports each link at most once; it reports a
-- link with a peer exactly when the table has that link between the flow and the peer, whichever
-- end the flow is; and it keeps exactly the links of which the flow is neither end.
pub remove_links_of-get :
    (target : ℕ) (t : LinkTable)
    → HasDistinctKeys t
    → HasDistinctKeys (remove_links_of target t).0
      × ((id peer : ℕ)
          → (get id (remove_links_of target t).0 ≡ some peer)
            ↔ ((l : Link) × (get id t ≡ some l) × IsBetween target peer l))
      × ((id : ℕ) (l : Link)
          → (get id (remove_links_of target t).1 ≡ some l)
            ↔ ((get id t ≡ some l) × (l.a ≢ target) × (l.b ≢ target)))
unfolding remove_links_of
remove_links_of-get target t d = (
  peers-HasDistinctKeys target t d,
  λ id peer. (
    λ h. reported id peer (get id t) refl (sym (peers-get target id t d) ∙ h),
    λ (l, found, between).
        peers-get target id t d ∙ ap (peer_in target) found ∙ (peer_of_iff target peer l).1 between,
  ),
  λ id l. (
    λ h.
        let (other_a, other_b) =
          (is_apart_iff target id l).0 (retain-passes (is_apart target) id l t h) in
        (retain-of (is_apart target) id l t d h, other_a, other_b),
    λ (found, other_a, other_b).
        get-retain (is_apart target) id l t found ((is_apart_iff target id l).1 (other_a, other_b)),
  ),
)
  where
    reported :
        (id peer : ℕ) (o : Option Link)
        → get id t ≡ o
        → peer_in target o ≡ some peer
        → (l : Link) × (get id t ≡ some l) × IsBetween target peer l
    reported id peer none e h = cc
    reported id peer (some l) e h = (l, e, (peer_of_iff target peer l).0 h)
