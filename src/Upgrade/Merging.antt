-- ===== src/Upgrade/Merging.antt =====
-- What `merge_service_targets` (src/upgrade/orchestrator.rs) keeps.
use obsidian_mcp.Common.{
  ◌≡◌, refl, sym, ◌∙◌, ◌⊎◌, inl, inr, Bool, true, false, ◌&&◌, Option, none, some, List, [], ◌∷◌,
  find, arith, Bool-cases, if◌then◌else◌,
}
use obsidian_mcp.Text.{Text, text_eq}
use obsidian_mcp.Text.Compare.{text_eq_sound}
use obsidian_mcp.Json.{text_lt}
use obsidian_mcp.Upgrade.{
  ServiceOwner, launchd, systemd_user, ServiceTarget, same_owner, is_service, put_target, put_all,
  insert_target, sort_targets, merge_service_targets,
}

-- The later one of two answers, if there is one.
abbrev pub or_earlier : Option ServiceTarget → Option ServiceTarget → Option ServiceTarget
or_earlier none earlier = earlier
or_earlier (some later) earlier = some later

-- The last service in a list with this owner and identifier.
abbrev pub find_last : ServiceOwner → Text → List ServiceTarget → Option ServiceTarget
find_last owner id [] = none
find_last owner id (target ∷ targets) =
    or_earlier (find_last owner id targets)
      (if is_service owner id target then some target else none)

-- The identifiers do not descend.
abbrev pub Ascending : List ServiceTarget → Type 0
Ascending [] = Unit
Ascending (x ∷ []) = Unit
Ascending (x ∷ y ∷ ys) = (text_lt y.id x.id ≡ false) × Ascending (y ∷ ys)

text_lt_asym : (s t : Text) → text_lt s t ≡ true → text_lt t s ≡ false
text_lt_asym s [] h = absurd (ground arith)
text_lt_asym [] (d ∷ t) h = refl
text_lt_asym (c ∷ s) (d ∷ t) h = ground (arith, text_lt_asym s t)

text_lt_irrefl : (s : Text) → text_lt s s ≡ false
text_lt_irrefl [] = refl
text_lt_irrefl (c ∷ s) = ground (arith, text_lt_irrefl s)

same_owner_sound : (a b : ServiceOwner) → same_owner a b ≡ true → a ≡ b
same_owner_sound launchd launchd h = refl
same_owner_sound systemd_user systemd_user h = refl
same_owner_sound launchd systemd_user h = cc
same_owner_sound systemd_user launchd h = cc

module _ (owner : ServiceOwner) (id : Text) where
  is_service_sound :
      (t : ServiceTarget) → is_service owner id t ≡ true → (t.owner ≡ owner) × (t.id ≡ id)
  is_service_sound t h =
      (same_owner_sound t.owner owner (ground arith), text_eq_sound t.id id (ground arith))

  -- A service that another replaces has the same owner and identifier.
  same_service :
      (t p : ServiceTarget)
      → is_service t.owner t.id p ≡ true
      → is_service owner id p ≡ is_service owner id t
  same_service t p h =
      let eo = same_owner_sound p.owner t.owner (ground arith) in
      let ei = text_eq_sound p.id t.id (ground arith) in
      λ i. same_owner (eo i) owner && text_eq (ei i) id

  find-put_target :
      (t : ServiceTarget) (ts : List ServiceTarget)
      → find (is_service owner id) (put_target t ts)
        ≡ (if is_service owner id t then some t else find (is_service owner id) ts)
  unfolding put_target
  find-put_target t [] = refl
  find-put_target t (p ∷ ts) = elim (Bool-cases (is_service t.owner t.id p)) [
    | inl e ↦ elim (Bool-cases (is_service owner id t)) [
      | inl k ↦ rw (e, k) refl
      | inr k ↦
          let other : is_service owner id p ≡ false = same_service t p e ∙ k in
          rw (e, k, other) refl
    ]
    | inr e ↦ elim (Bool-cases (is_service owner id t)) [
      | inr k ↦ rw (e, k) (ground (arith, find-put_target t ts, k))
      | inl k ↦ elim (Bool-cases (is_service owner id p)) [
        | inr m ↦ rw (e, k, m) (find-put_target t ts ∙ rw k refl)
        | inl m ↦
            let (to, ti) = is_service_sound t k in
            let same : is_service t.owner t.id p ≡ true = (λ i. is_service (to i) (ti i) p) ∙ m in
            absurd (ground (arith, e, same))
      ]
    ]
  ]

  find-put_all :
      (current existing : List ServiceTarget)
      → find (is_service owner id) (put_all current existing)
        ≡ or_earlier (find_last owner id current) (find (is_service owner id) existing)
  find-put_all [] existing = refl
  find-put_all (t ∷ current) existing =
      find-put_all current (put_target t existing)
      ∙ rw find-put_target (
          later (find_last owner id current) (is_service owner id t)
            (find (is_service owner id) existing))
    where
      later :
          (o : Option ServiceTarget) (b : Bool) (e : Option ServiceTarget)
          → or_earlier o (if b then some t else e)
            ≡ or_earlier (or_earlier o (if b then some t else none)) e
      later none true e = refl
      later none false e = refl
      later (some x) b e = refl

  find-insert_target :
      (x : ServiceTarget) (ys : List ServiceTarget)
      → find (is_service owner id) (insert_target x ys) ≡ find (is_service owner id) (x ∷ ys)
  unfolding insert_target
  find-insert_target x [] = refl
  find-insert_target x (y ∷ ys) = elim (Bool-cases (text_lt y.id x.id)) [
    | inr e ↦ rw e refl
    | inl e ↦ rw e (
        passed e (find-insert_target x ys) (Bool-cases (is_service owner id x))
          (Bool-cases (is_service owner id y)))
  ]
    where
      passed :
          text_lt y.id x.id ≡ true
          → find (is_service owner id) (insert_target x ys) ≡ find (is_service owner id) (x ∷ ys)
          → (is_service owner id x ≡ true) ⊎ (is_service owner id x ≡ false)
          → (is_service owner id y ≡ true) ⊎ (is_service owner id y ≡ false)
          → find (is_service owner id) (y ∷ insert_target x ys)
            ≡ find (is_service owner id) (x ∷ y ∷ ys)
      passed l h (inr a) (inl b) = rw (a, b) refl
      passed l h (inr a) (inr b) = rw (a, b) (h ∙ rw a refl)
      passed l h (inl a) (inr b) = rw (a, b) (h ∙ rw a refl)
      passed l h (inl a) (inl b) =
          let ids : y.id ≡ x.id = (is_service_sound y b).1 ∙ sym (is_service_sound x a).1 in
          let no : text_lt y.id x.id ≡ false = (λ i. text_lt (ids i) x.id) ∙ text_lt_irrefl x.id in
          absurd (ground (arith, l, no))

  find-sort_targets :
      (xs : List ServiceTarget)
      → find (is_service owner id) (sort_targets xs) ≡ find (is_service owner id) xs
  find-sort_targets [] = refl
  find-sort_targets (x ∷ xs) =
      find-insert_target x (sort_targets xs) ∙ ground (arith, find-sort_targets xs)

insert_target-Ascending :
    (x : ServiceTarget) (ys : List ServiceTarget) → Ascending ys → Ascending (insert_target x ys)
unfolding insert_target
insert_target-Ascending x [] h = tt
insert_target-Ascending x (y ∷ ys) h = elim (Bool-cases (text_lt y.id x.id)) [
  | inr e ↦ rw e (e, h)
  | inl e ↦ rw e (behind (text_lt_asym y.id x.id e) ys h (insert_target-Ascending x ys (tail ys h)))
]
  where
    tail : (zs : List ServiceTarget) → Ascending (y ∷ zs) → Ascending zs
    tail [] k = tt
    tail (z ∷ zs) (_, k) = k

    behind :
        text_lt x.id y.id ≡ false
        → (zs : List ServiceTarget) → Ascending (y ∷ zs)
        → Ascending (insert_target x zs)
        → Ascending (y ∷ insert_target x zs)
    behind l [] k r = (l, tt)
    behind l (z ∷ zs) (k, _) r = elim (Bool-cases (text_lt z.id x.id)) [
      | inl m ↦ rw m (k, rw m at r)
      | inr m ↦ rw m (l, rw m at r)
    ]

sort_targets-Ascending : (xs : List ServiceTarget) → Ascending (sort_targets xs)
sort_targets-Ascending [] = tt
sort_targets-Ascending (x ∷ xs) =
    insert_target-Ascending x (sort_targets xs) (sort_targets-Ascending xs)

-- The merged services ascend by their identifiers, and the one with some owner and identifier is the last
-- of the current ones that has these, or else the first of the existing ones.
pub merge_service_targets-find :
    (existing current : List ServiceTarget) (owner : ServiceOwner) (id : Text)
    → (find (is_service owner id) (merge_service_targets existing current)
        ≡ or_earlier (find_last owner id current) (find (is_service owner id) existing))
      × Ascending (merge_service_targets existing current)
unfolding merge_service_targets
merge_service_targets-find existing current owner id = (
  find-sort_targets owner id (put_all current existing) ∙ find-put_all owner id current existing,
  sort_targets-Ascending (put_all current existing),
)
