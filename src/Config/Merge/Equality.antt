-- ===== src/Config/Merge/Equality.antt =====
-- Equality of strings, comparable structs and rules, as Go's `==` and `reflect.DeepEqual` decide it
-- for the lists that are united (internal/config/merge.go).
use agent_creance.Prelude.{
  ℕ, Bool, true, false, ◌&&◌, List, [], ◌∷◌, Option, none, some, Bytes, bytes_eq, bytes_eq_iff,
  ◌==◌, ==_iff, ◌≡◌, refl, sym, ◌∙◌, ap, ap₂, ◌↔◌, and_iff,
}
use agent_creance.Config.Model.{HostService, Generator, Rule}
use agent_creance.Config.Merge.Dedupe.{Equal}

abbrev pub of_bytes : Equal Bytes
of_bytes = record { same = bytes_eq; same_iff = bytes_eq_iff }

abbrev pub of_ℕ : Equal ℕ
of_ℕ = record { same = ◌==◌; same_iff = ==_iff }

unfoldable pub bool_eq : Bool → Bool → Bool
bool_eq true b = b
bool_eq false true = false
bool_eq false false = true

pub bool_eq_iff : (a b : Bool) → (bool_eq a b ≡ true) ↔ (a ≡ b)
unfolding bool_eq
bool_eq_iff true true = (λ _. refl, λ _. refl)
bool_eq_iff true false = (λ h. cc, λ h. cc)
bool_eq_iff false true = (λ h. cc, λ h. cc)
bool_eq_iff false false = (λ _. refl, λ _. refl)

abbrev of_bool : Equal Bool
of_bool = record { same = bool_eq; same_iff = bool_eq_iff }

module _ {A : Type 0} (eq : Equal A) where
  unfoldable pub list_eq : List A → List A → Bool
  list_eq [] [] = true
  list_eq (a ∷ as') (b ∷ bs) = eq.same a b && list_eq as' bs
  list_eq _ _ = false

  pub list_eq_iff : (a b : List A) → (list_eq a b ≡ true) ↔ (a ≡ b)
  unfolding list_eq
  list_eq_iff [] [] = (λ _. refl, λ _. refl)
  list_eq_iff [] (b ∷ bs) = (λ h. cc, λ h. cc)
  list_eq_iff (a ∷ as') [] = (λ h. cc, λ h. cc)
  list_eq_iff (a ∷ as') (b ∷ bs) = (
    λ h.
        let (p, q) = (and_iff (eq.same a b) (list_eq as' bs)).0 h in
        join ((eq.same_iff a b).0 p) ((list_eq_iff as' bs).0 q),
    λ h.
        (and_iff (eq.same a b) (list_eq as' bs)).1
          ((eq.same_iff a b).1 (head h), (list_eq_iff as' bs).1 (rest h)),
  )
    where
      join : a ≡ b → as' ≡ bs → a ∷ as' ≡ b ∷ bs
      join p q = cc

      head : a ∷ as' ≡ b ∷ bs → a ≡ b
      head h = cc

      rest : a ∷ as' ≡ b ∷ bs → as' ≡ bs
      rest h = cc

  abbrev of_list : Equal (List A)
  of_list = record { same = list_eq; same_iff = list_eq_iff }

  unfoldable pub option_eq : Option A → Option A → Bool
  option_eq none none = true
  option_eq (some a) (some b) = eq.same a b
  option_eq _ _ = false

  pub option_eq_iff : (a b : Option A) → (option_eq a b ≡ true) ↔ (a ≡ b)
  unfolding option_eq
  option_eq_iff none none = (λ _. refl, λ _. refl)
  option_eq_iff none (some b) = (λ h. cc, λ h. cc)
  option_eq_iff (some a) none = (λ h. cc, λ h. cc)
  option_eq_iff (some a) (some b) =
      (λ h. ap some ((eq.same_iff a b).0 h), λ h. (eq.same_iff a b).1 (inner h))
    where
      inner : some a ≡ some b → a ≡ b
      inner h = cc

  abbrev of_option : Equal (Option A)
  of_option = record { same = option_eq; same_iff = option_eq_iff }

-- Structs are equal when their fields are.
abbrev of_pair : {A B : Type 0} → Equal A → Equal B → Equal (A × B)
of_pair p q = record {
  same = λ a b. p.same a.0 b.0 && q.same a.1 b.1;
  same_iff = λ a b. (
    λ h.
        let (x, y) = (and_iff (p.same a.0 b.0) (q.same a.1 b.1)).0 h in
        ap₂ (λ s t. (s, t)) ((p.same_iff a.0 b.0).0 x) ((q.same_iff a.1 b.1).0 y),
    λ h.
        (and_iff (p.same a.0 b.0) (q.same a.1 b.1)).1
          ((p.same_iff a.0 b.0).1 (ap (λ t. t.0) h), (q.same_iff a.1 b.1).1 (ap (λ t. t.1) h)),
  );
}

-- Equality by a view that loses nothing.
abbrev of_view :
    {A B : Type 0} (view : B → A) (back : A → B) → ((b : B) → back (view b) ≡ b) → Equal A → Equal B
of_view view back h p = record {
  same = λ a b. p.same (view a) (view b);
  same_iff = λ a b. (
    λ e. sym (h a) ∙ ap back ((p.same_iff (view a) (view b)).0 e) ∙ h b,
    λ e. (p.same_iff (view a) (view b)).1 (ap view e),
  );
}

abbrev pub of_host_service : Equal HostService
of_host_service =
    of_view (λ (h : HostService). (h.label, h.port)) (λ p. record { label = p.0; port = p.1 })
      (λ h. refl) (of_pair of_bytes of_ℕ)

abbrev pub of_generator : Equal Generator
of_generator =
    of_view (λ (g : Generator). (g.kind, g.path)) (λ p. record { kind = p.0; path = p.1 })
      (λ g. refl) (of_pair of_bytes of_bytes)

abbrev Fields : Type 0
Fields = Bytes × (Option (List Bytes) × (Option (List Bytes) × (Bytes × (Bytes × (Bool × Bytes)))))

abbrev fields : Rule → Fields
fields r = (r.host, (r.paths, (r.methods, (r.mode, (r.inject, (r.in_cage, r.reason))))))

abbrev of_fields : Fields → Rule
of_fields (host, (paths, (methods, (mode, (inject, (in_cage, reason)))))) = record {
  host = host;
  paths = paths;
  methods = methods;
  mode = mode;
  inject = inject;
  in_cage = in_cage;
  reason = reason;
}

abbrev pub of_rule : Equal Rule
of_rule =
    of_view fields of_fields (λ r. refl)
      (of_pair of_bytes (
        of_pair (of_option (of_list of_bytes)) (
          of_pair (of_option (of_list of_bytes))
            (of_pair of_bytes (of_pair of_bytes (of_pair of_bool of_bytes))))))
