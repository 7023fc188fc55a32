-- ===== src/Backend/Replies.antt =====
-- What the backend's reply says, apart from how the code reads it.
use npacn_fisac.Base.{
  ℕ, ◌≡◌, refl, sym, subst, ◌∙◌, ap, ◌⊎◌, inl, inr, Bool, true, false, ◌||◌, ==_iff, Bool-cases,
}
use npacn_fisac.Base.{Option, none, some, Option-cases, List, take, if◌then◌else◌}
use npacn_fisac.Base.CText.{codes}
use npacn_fisac.Base.Int.{ℤ, pos, negsuc}
use npacn_fisac.Json.{
  Json, Kind, same_kind, is_false, is_true, is_null, number, string, array, object,
}
use npacn_fisac.Backend.{
  Verdict, granted, denied, auth_verdict, register_verdict, succeeded, number_of, is_one, has_kind,
  string_of, denied_with,
}

some_inj {ℓ} : {A : Type ℓ} {x y : A} → some x ≡ some y → x ≡ y
some_inj q = cc

clash {ℓ} : {A : Type ℓ} {b : Bool} → b ≡ true → b ≡ false → A
clash p q = cc

is_true_lem : (k : Kind) → same_kind k is_true ≡ true → k ≡ is_true
unfolding same_kind
is_true_lem is_false e = cc
is_true_lem is_true e = refl
is_true_lem is_null e = cc
is_true_lem number e = cc
is_true_lem string e = cc
is_true_lem array e = cc
is_true_lem object e = cc

number_lem : (k : Kind) → same_kind k number ≡ true → k ≡ number
unfolding same_kind
number_lem is_false e = cc
number_lem is_true e = cc
number_lem is_null e = cc
number_lem number e = refl
number_lem string e = cc
number_lem array e = cc
number_lem object e = cc

module _ (json : Json) where
  is_one-eq : (n : ℤ) → is_one json n ≡ true → n ≡ pos 1
  is_one-eq (pos n) e = ap pos ((==_iff n 1).0 e)
  is_one-eq (negsuc n) e = cc

  -- The text is a JSON object in which `success` is true, or the number 1, and `user_id` is this number.
  pub record Grants (text : List ℕ) (user_id : ℤ) : Type 0 where
    pub item : json.Item
    pub flag : json.Item
    pub user : json.Item
    pub parsed : json.parse text ≡ some item
    pub flagged : json.get_object_item item (codes "success") ≡ some flag
    pub set : (json.kind flag ≡ is_true) ⊎ (json.valueint flag ≡ pos 1)
    pub named : json.get_object_item item (codes "user_id") ≡ some user
    pub is_number : json.kind user ≡ number
    pub value : json.valueint user ≡ user_id

  -- There was a reply, and it grants.
  abbrev pub Admits : Option (List ℕ) → ℤ → Type 0
  Admits none user_id = ⊥
  Admits (some text) user_id = Grants text user_id

  succeeded-set :
      (o : Option json.Item)
      → succeeded json o ≡ true
      → (flag : json.Item) × (o ≡ some flag)
        × ((json.kind flag ≡ is_true) ⊎ (json.valueint flag ≡ pos 1))
  succeeded-set none e = cc
  succeeded-set (some flag) e = (
    flag,
    refl,
    elim (Bool-cases (has_kind json flag is_true)) [
      | inl h ↦ inl (is_true_lem _ h)
      | inr h ↦
          inr (is_one-eq _ (ap (λ (b : Bool). b || is_one json (json.valueint flag)) (sym h) ∙ e))
    ],
  )

  set-succeeded :
      (flag : json.Item)
      → (json.kind flag ≡ is_true) ⊎ (json.valueint flag ≡ pos 1)
      → succeeded json (some flag) ≡ true
  unfolding same_kind
  set-succeeded flag (inl e) = rw e refl
  set-succeeded flag (inr e) = elim (Bool-cases (has_kind json flag is_true)) [
    | inl h ↦ rw h refl
    | inr h ↦ rw (h, e) refl
  ]

  number_of-is_number :
      (o : Option json.Item) (n : ℤ)
      → number_of json o ≡ some n
      → (user : json.Item) × (o ≡ some user) × (json.kind user ≡ number) × (json.valueint user ≡ n)
  number_of-is_number none n e = cc
  number_of-is_number (some user) n e = elim (Bool-cases (has_kind json user number)) [
    | inl h ↦ (
      user,
      refl,
      number_lem _ h,
      some_inj (ap (λ (b : Bool). if b then some (json.valueint user) else none) (sym h) ∙ e),
    )
    | inr h ↦
        absurd
          (none_some (ap (λ (b : Bool). if b then some (json.valueint user) else none) (sym h) ∙ e))
  ]
    where
      none_some : {m : ℤ} → none ≡ some m → ⊥
      none_some q = cc

  granting :
      (text : List ℕ) (item : json.Item) (user_id : ℤ)
      → json.parse text ≡ some item
      → succeeded json (json.get_object_item item (codes "success")) ≡ true
      → number_of json (json.get_object_item item (codes "user_id")) ≡ some user_id
      → Grants text user_id
  granting text item user_id parsed ok id =
      let s = succeeded-set _ ok in
      let n = number_of-is_number _ user_id id in
      record {
        item = item;
        flag = s.0;
        user = n.0;
        parsed = parsed;
        flagged = s.1;
        set = s.2;
        named = n.1;
        is_number = n.2;
        value = n.3;
      }

  grants_inv :
      (text : List ℕ) (item : json.Item) (user_id : ℤ)
      → Grants text user_id
      → json.parse text ≡ some item
      → (succeeded json (json.get_object_item item (codes "success")) ≡ true)
        × (number_of json (json.get_object_item item (codes "user_id")) ≡ some user_id)
  unfolding same_kind
  grants_inv text item user_id g parsed =
      let same : g.item ≡ item = some_inj (sym g.parsed ∙ parsed) in
      (
        ap (λ (i : json.Item). succeeded json (json.get_object_item i (codes "success"))) (sym same)
            ∙ ap (succeeded json) g.flagged
            ∙ set-succeeded g.flag g.set,
        ap (λ (i : json.Item). number_of json (json.get_object_item i (codes "user_id"))) (sym same)
            ∙ ap (number_of json) g.named
            ∙ rw (g.is_number, g.value) refl,
      )

  -- How a reply that admits nobody is passed on: a login in a text of its own, a registration in the text
  -- of the reply's `message`, up to 255 bytes of it, or in a text of its own.
  pub data Explains : Bool → Option (List ℕ) → List ℕ → Type 0 where
    of_login :
        {resp : Option (List ℕ)}
        → Explains true resp (codes "Invalid credentials or service unavailable")
    of_registration : {resp : Option (List ℕ)} → Explains false resp (codes "Registration failed")
    passed_on :
        {text : List ℕ} (item : json.Item) (message : List ℕ)
        → json.parse text ≡ some item
        → string_of json (json.get_object_item item (codes "message")) ≡ some message
        → Explains false (some text) (take 255 message)

  -- The verdict on a login (`true`) or a registration that a reply stands for.
  pub data Decides (login : Bool) (resp : Option (List ℕ)) : Verdict → Type 0 where
    admits : {user_id : ℤ} → Admits resp user_id → Decides login resp (granted user_id)
    admits_nobody :
        {message : List ℕ}
        → ((user_id : ℤ) → ¬ Admits resp user_id)
        → Explains login resp message
        → Decides login resp (denied message)

  module _ (text : List ℕ) where
    unparsed : json.parse text ≡ none → (user_id : ℤ) → ¬ Grants text user_id
    unparsed e user_id g = absurd (none_some (sym e ∙ g.parsed))
      where
        none_some : {i : json.Item} → none ≡ some i → ⊥
        none_some q = cc

    module _ (item : json.Item) (parsed : json.parse text ≡ some item) where
      not_set :
          succeeded json (json.get_object_item item (codes "success")) ≡ false
          → (user_id : ℤ) → ¬ Grants text user_id
      not_set e user_id g = clash (grants_inv text item user_id g parsed).0 e

      not_named :
          number_of json (json.get_object_item item (codes "user_id")) ≡ none
          → (user_id : ℤ) → ¬ Grants text user_id
      not_named e user_id g = absurd (none_some (sym e ∙ (grants_inv text item user_id g parsed).1))
        where
          none_some : {n : ℤ} → none ≡ some n → ⊥
          none_some q = cc

  pub auth_verdict-Decides : (resp : Option (List ℕ)) → Decides true resp (auth_verdict json resp)
  unfolding auth_verdict
  auth_verdict-Decides none = admits_nobody (λ n h. h) of_login
  auth_verdict-Decides (some text) = elim (Option-cases (json.parse text)) [
    | inl e ↦ rw (auth_verdict, e) (admits_nobody (unparsed text e) of_login)
    | inr (item, e) ↦
        elim (Bool-cases (succeeded json (json.get_object_item item (codes "success")))) [
          | inr f ↦ rw (auth_verdict, e, f) (admits_nobody (not_set text item e f) of_login)
          | inl t ↦
              elim (Option-cases (number_of json (json.get_object_item item (codes "user_id")))) [
                | inl n ↦
                    rw (auth_verdict, e, t, n) (admits_nobody (not_named text item e n) of_login)
                | inr (uid, n) ↦ rw (auth_verdict, e, t, n) (admits (granting text item uid e t n))
              ]
        ]
  ]

  passed :
      (text : List ℕ) (item : json.Item)
      → json.parse text ≡ some item
      → ((user_id : ℤ) → ¬ Grants text user_id)
      → Decides false
          (some text)
          (denied_with json (string_of json (json.get_object_item item (codes "message"))))
  passed text item e nobody =
      elim (Option-cases (string_of json (json.get_object_item item (codes "message")))) [
        | inl n ↦ rw n (admits_nobody nobody of_registration)
        | inr (message, m) ↦ rw m (admits_nobody nobody (passed_on item message e m))
      ]

  pub register_verdict-Decides :
      (resp : Option (List ℕ)) → Decides false resp (register_verdict json resp)
  unfolding register_verdict
  register_verdict-Decides none = admits_nobody (λ n h. h) of_registration
  register_verdict-Decides (some text) = elim (Option-cases (json.parse text)) [
    | inl e ↦ rw (register_verdict, e) (admits_nobody (unparsed text e) of_registration)
    | inr (item, e) ↦
        elim (Bool-cases (succeeded json (json.get_object_item item (codes "success")))) [
          | inr f ↦ rw (register_verdict, e, f) (passed text item e (not_set text item e f))
          | inl t ↦
              elim (Option-cases (number_of json (json.get_object_item item (codes "user_id")))) [
                | inl n ↦
                    rw (register_verdict, e, t, n)
                      (admits_nobody (not_named text item e n) of_registration)
                | inr (uid, n) ↦
                    rw (register_verdict, e, t, n) (admits (granting text item uid e t n))
              ]
        ]
  ]

  granted-Admits :
      (login : Bool) (resp : Option (List ℕ)) (v : Verdict) (user_id : ℤ)
      → Decides login resp v
      → v ≡ granted user_id
      → Admits resp user_id
  granted-Admits login resp _ user_id (admits {user_id = n} h) e =
      subst (Admits resp) (granted_inj e) h
    where
      granted_inj : {m : ℤ} → granted n ≡ granted m → n ≡ m
      granted_inj q = cc
  granted-Admits login resp _ user_id (admits_nobody f w) e = cc

  pub auth_verdict-Admits :
      (resp : Option (List ℕ)) (user_id : ℤ)
      → auth_verdict json resp ≡ granted user_id
      → Admits resp user_id
  auth_verdict-Admits resp user_id =
      granted-Admits true resp (auth_verdict json resp) user_id (auth_verdict-Decides resp)

  pub register_verdict-Admits :
      (resp : Option (List ℕ)) (user_id : ℤ)
      → register_verdict json resp ≡ granted user_id
      → Admits resp user_id
  register_verdict-Admits resp user_id =
      granted-Admits false resp (register_verdict json resp) user_id (register_verdict-Decides resp)
