-- ===== src/Registry/Scopes.antt =====
-- The scopes of a vault's views (src/daemon/vault_registry.rs): each has a holder, and no holder has two.
use obsidian_mcp.Common.{
  ◌≡◌, refl, sym, ap, ◌∙◌, subst, ◌⊎◌, inl, inr, Bool, true, false, Option, none, some, [], ◌∷◌,
  arith, Bool-cases, some-eq,
}
use obsidian_mcp.Text.{Text, text_eq, is_empty}
use obsidian_mcp.Text.Compare.{text_eq_sound, text_eq_refl}
use obsidian_mcp.Map.{Map, lookup, insert, remove, get_or}
use obsidian_mcp.Map.Laws.{lookup-insert, lookup-remove, lookup-nil}
use obsidian_mcp.Map.Sums.{Unique, insert-Unique, remove-Unique}
use obsidian_mcp.Registry.{LiveScope, holds, by_holder}
use obsidian_mcp.Registry.Holding.{hold, new_scope}

module _ {V : Type 0} where
  -- What a map holds after an insertion: the new value at its key, or what it held.
  pub lookup-insert_cases :
      (k j : Text) (v : V) (m : Map V) {w : V}
      → lookup j (insert k v m) ≡ some w
      → ((k ≡ j) × (v ≡ w)) ⊎ (lookup j m ≡ some w)
  lookup-insert_cases k j v m h = elim (Bool-cases (text_eq k j)) [
    | inl e ↦ inl (text_eq_sound k j e, some-eq (rw (lookup-insert, e) at h))
    | inr e ↦ inr (rw (lookup-insert, e) at h)
  ]

  pub lookup-remove_kept :
      (k j : Text) (m : Map V) {w : V} → lookup j (remove k m) ≡ some w → lookup j m ≡ some w
  lookup-remove_kept k j m h = elim (Bool-cases (text_eq k j)) [
    | inl e ↦ cc (rw (lookup-remove, e) at h)
    | inr e ↦ rw (lookup-remove, e) at h
  ]

  pub lookup-insert_same : (k : Text) (v : V) (m : Map V) → lookup k (insert k v m) ≡ some v
  lookup-insert_same k v m = rw (lookup-insert, text_eq_refl k) refl

  pub insert-nonempty : (k : Text) (v : V) (m : Map V) → is_empty (insert k v m) ≡ false
  unfolding insert
  insert-nonempty k v [] = refl
  insert-nonempty k v ((j, w) ∷ m) = ground arith

pub record Sound (scopes : Map LiveScope) : Type 0 where
  pub unique : Unique scopes
  pub held : (k : Text) {s : LiveScope} → lookup k scopes ≡ some s → is_empty s.holders ≡ false
  pub one_scope :
      (id j k : Text) {s t : LiveScope}
      → lookup j scopes ≡ some s
      → lookup k scopes ≡ some t
      → holds id s ≡ true
      → holds id t ≡ true
      → j ≡ k

pub nil-Sound : Sound []
nil-Sound = record {
  unique = tt;
  held = λ k h. cc (rw lookup-nil at h);
  one_scope = λ id j k h _ _ _. cc (rw lookup-nil at h);
}

-- Every holder of the one scope is a holder of the other.
abbrev pub Within : LiveScope → LiveScope → Type 0
Within s t = (id : Text) → holds id s ≡ true → holds id t ≡ true

-- Where a scope of the new map was before.
before_change :
    (scopes : Map LiveScope) (k : Text) {s : LiveScope} (t : LiveScope)
    → lookup k scopes ≡ some s
    → Within t s
    → (j : Text) {u : LiveScope} → lookup j (insert k t scopes) ≡ some u
    → (o : LiveScope) × (lookup j scopes ≡ some o) × Within u o
before_change scopes k {s} t h w j {u} e = elim (lookup-insert_cases k j t scopes e) [
  | inl (same, value) ↦
      (s, subst (λ i. lookup i scopes ≡ some s) same h, subst (λ x. Within x s) value w)
  | inr old ↦ (u, old, λ id p. p)
]

-- A scope changes to one with the same holders or fewer.
pub change-Sound :
    (scopes : Map LiveScope) (k : Text) {s : LiveScope} (t : LiveScope)
    → Sound scopes
    → lookup k scopes ≡ some s
    → Within t s
    → is_empty t.holders ≡ false
    → Sound (insert k t scopes)
change-Sound scopes k {s} t p h w some_holder = record {
  unique = insert-Unique k t scopes p.unique;
  held = λ j e. elim (lookup-insert_cases k j t scopes e) [
    | inl (same, value) ↦ subst (λ x. is_empty x.holders ≡ false) value some_holder
    | inr old ↦ p.held j old
  ];
  one_scope = λ id i j ei ej hi hj.
      let (a, ea, wa) = before_change scopes k t h w i ei in
      let (b, eb, wb) = before_change scopes k t h w j ej in
      p.one_scope id i j ea eb (wa id hi) (wb id hj);
}

pub remove-Sound : (scopes : Map LiveScope) (k : Text) → Sound scopes → Sound (remove k scopes)
remove-Sound scopes k p = record {
  unique = remove-Unique k scopes p.unique;
  held = λ j e. p.held j (lookup-remove_kept k j scopes e);
  one_scope = λ id i j ei ej.
      p.one_scope id i j (lookup-remove_kept k i scopes ei) (lookup-remove_kept k j scopes ej);
}

-- An identifier that no scope has as a holder.
abbrev pub New : Text → Map LiveScope → Type 0
New id scopes = (k : Text) (s : LiveScope) → lookup k scopes ≡ some s → holds id s ≡ false

-- A scope that has this holder, with what an `attach` reads of it.
abbrev pub Same : Map LiveScope → Text → Text → LiveScope → Type 0
Same scopes j other u =
    (o : LiveScope) × (lookup j scopes ≡ some o)
    × (holds other o ≡ true)
    × (o.context ≡ u.context)
    × (o.initialization ≡ u.initialization)

held_or_new :
    (other : Text) (found : Option LiveScope)
    → let o : LiveScope = elim found [ none ↦ new_scope | some v ↦ v ] in
      holds other o ≡ true → found ≡ some o
held_or_new other none h = absurd (ground (arith, rw lookup-nil at h))
held_or_new other (some o) h = refl

-- A holder after a new one has entered is the new one, or was one before.
pub entered :
    (scopes : Map LiveScope) (k id : Text) (watch : Bool) (j other : Text) {u : LiveScope}
    → lookup j (insert k (hold id watch (get_or new_scope k scopes)) scopes) ≡ some u
    → holds other u ≡ true
    → ((other ≡ id) × (j ≡ k)) ⊎ Same scopes j other u
entered scopes k id watch j other {u} e h =
    let o = get_or new_scope k scopes in
    elim (lookup-insert_cases k j (hold id watch o) scopes e) [
      | inr old ↦ inr (u, old, h, refl, refl)
      | inl (same, value) ↦ elim (Bool-cases (text_eq id other)) [
        | inl x ↦ inl (sym (text_eq_sound id other x), sym same)
        | inr x ↦
            let held : holds other (hold id watch o) ≡ true =
              subst (λ s. holds other s ≡ true) (sym value) h in
            let before : holds other o ≡ true = rw (lookup-insert, x) at held in
            inr (
              o,
              subst (λ i. lookup i scopes ≡ some o) same
                  (held_or_new other (lookup k scopes) before),
              before,
              ap (λ s. s.context) value,
              ap (λ s. s.initialization) value,
            )
      ]
    ]

pub enter-Sound :
    (scopes : Map LiveScope) (k id : Text) (watch : Bool)
    → Sound scopes
    → New id scopes
    → Sound (insert k (hold id watch (get_or new_scope k scopes)) scopes)
enter-Sound scopes k id watch p new =
    let o = get_or new_scope k scopes in
    record {
      unique = insert-Unique k (hold id watch o) scopes p.unique;
      held = λ j e. elim (lookup-insert_cases k j (hold id watch o) scopes e) [
        | inl (same, value) ↦
            subst (λ x. is_empty x.holders ≡ false) value (insert-nonempty id watch o.holders)
        | inr old ↦ p.held j old
      ];
      one_scope = λ other i j ei ej hi hj. elim (entered scopes k id watch i other ei hi) [
        | inl (a, ik) ↦ elim (entered scopes k id watch j other ej hj) [
          | inl (b, jk) ↦ ik ∙ sym jk
          | inr (t, et, ht, _, _) ↦ absurd (not_new a j t et ht)
        ]
        | inr (s, es, hs, _, _) ↦ elim (entered scopes k id watch j other ej hj) [
          | inl (b, jk) ↦ absurd (not_new b i s es hs)
          | inr (t, et, ht, _, _) ↦ p.one_scope other i j es et hs ht
        ]
      ];
    }
  where
    not_new :
        {other : Text}
        → other ≡ id
        → (j : Text) (t : LiveScope) → lookup j scopes ≡ some t
        → holds other t ≡ true
        → ⊥
    not_new {other} same j t e h =
        let known : holds id t ≡ true = subst (λ x. holds x t ≡ true) same h in
        let no : holds id t ≡ false = new j t e in ground (arith, known, no)

-- `by_holder` gives the scope that has the holder.
pub by_holder_sound :
    (id : Text) (scopes : Map LiveScope) {k : Text} {s : LiveScope}
    → Unique scopes
    → by_holder id scopes ≡ some (k, s)
    → (lookup k scopes ≡ some s) × (holds id s ≡ true)
unfolding by_holder lookup
by_holder_sound id [] u h = cc
by_holder_sound id ((j, t) ∷ scopes) {k} {s} (absent, u) h = elim (Bool-cases (holds id t)) [
  | inl e ↦
      subst (λ p. (lookup p.0 ((j, t) ∷ scopes) ≡ some p.1) × (holds id p.1 ≡ true))
        (some-eq (rw e at h)) (rw (text_eq_refl j) refl, e)
  | inr e ↦
      let (found, held) = by_holder_sound id scopes u (rw e at h) in
      elim (Bool-cases (text_eq j k)) [
        | inl x ↦
            absurd
              (missing (subst (λ i. lookup i scopes ≡ none) (text_eq_sound j k x) absent) found)
        | inr x ↦ (rw x found, held)
      ]
]
  where
    missing : {o : Option LiveScope} {t : LiveScope} → o ≡ none → o ≡ some t → ⊥
    missing e f = cc
