-- ===== src/Settings/Flags/Rows.antt =====
-- The rows of features after flags were put, and the flags that rows stand for.
use ddash.Base.{
  String, ◌==◌, eq_iff, ℤ, int_eq_refl, Bool, true, false, ◌||◌, List, [], ◌∷◌, ◌++◌, map, any, All,
  All-append, ◌≡◌, refl, sym, ap, subst, ◌∙◌, ◌⊎◌, inl, inr, arith, Bool-cases, if◌then◌else◌,
}
use ddash.Base.Text.{trim_space, to_lower}
use ddash.Store.{FeatureRow}
use ddash.Environments.{has}
use ddash.Settings.Queries.{is_feature, put_feature}
use ddash.Settings.Config.{flag}

-- Putting the flags of some keys, one after the other.
unfoldable pub put_all : ℤ → (String → Bool) → List String → List FeatureRow → List FeatureRow
put_all org flags [] rows = rows
put_all org flags (k ∷ ks) rows = put_all org flags ks (put_feature org k (flags k) rows)

-- Every row of the key has the value.
abbrev pub Gives : ℤ → String → Bool → FeatureRow → Type 0
Gives org key value r = is_feature org key r ≡ true → r.is_enabled ≡ value

-- A key without blanks and capitals.
abbrev pub Canonical : FeatureRow → Type 0
Canonical r = to_lower (trim_space r.feature_key) ≡ r.feature_key

module _ (org : ℤ) (flags : String → Bool) where
  abbrev set : String → FeatureRow → FeatureRow
  set k r = if is_feature org k r then record r { is_enabled = flags k } else r

  is_feature-set :
      (key k : String) (r : FeatureRow) → is_feature org key (set k r) ≡ is_feature org key r
  is_feature-set key k r = elim (Bool-cases (is_feature org k r)) [
    | inl hit ↦ rw hit
    | inr miss ↦ rw miss
  ]

  any-set :
      (key k : String) (rows : List FeatureRow)
      → any (is_feature org key) (map (set k) rows) ≡ any (is_feature org key) rows
  any-set key k [] = refl
  any-set key k (r ∷ rows) = rw (is_feature-set key k r, any-set key k rows)

  any-append :
      (key : String) (rows : List FeatureRow) (r : FeatureRow)
      → any (is_feature org key) (rows ++ r ∷ [])
        ≡ any (is_feature org key) rows || is_feature org key r
  any-append key [] r = ground arith
  any-append key (x ∷ rows) r = ground (arith, any-append key rows r)

  -- A key has a row after a put if it had one, or was put.
  any-put_feature :
      (key k : String) (rows : List FeatureRow)
      → any (is_feature org key) (put_feature org k (flags k) rows)
        ≡ any (is_feature org key) rows || k == key
  any-put_feature key k rows = elim (Bool-cases (any (is_feature org k) rows)) [
    | inl there ↦ elim (Bool-cases (k == key)) [
      | inl same ↦
          let there' : any (is_feature org key) rows ≡ true = rw ((eq_iff k key).0 same) at there in
          rw (there, any-set key k rows, there')
      | inr other ↦ rw (there, any-set key k rows, other) (ground arith)
    ]
    | inr fresh ↦ rw fresh (any-append key rows _ ∙ ground (arith, int_eq_refl org))
  ]

  pub any-put_all :
      (key : String) (ks : List String) (rows : List FeatureRow)
      → any (is_feature org key) (put_all org flags ks rows)
        ≡ any (is_feature org key) rows || has key ks
  unfolding put_all
  any-put_all key [] rows = ground arith
  any-put_all key (k ∷ ks) rows =
      any-put_all key ks _ ∙ rw (any-put_feature key k rows) (ground arith)

  abbrev new_row : String → FeatureRow
  new_row k = record { organization_id = org; feature_key = k; is_enabled = flags k }

  key_of_feature : (k : String) (r : FeatureRow) → is_feature org k r ≡ true → r.feature_key ≡ k
  key_of_feature k r hit = ground (arith, eq_iff r.feature_key k)

  Gives-set : (k : String) (r : FeatureRow) → Gives org k (flags k) (set k r)
  Gives-set k r hit = elim (Bool-cases (is_feature org k r)) [
    | inl here ↦ rw here
    | inr miss ↦ let broken : false ≡ true = rw (miss, miss) at hit in absurd (ground arith)
  ]

  Gives-set_other :
      (key k : String) (r : FeatureRow)
      → Gives org key (flags key) r
      → Gives org key (flags key) (set k r)
  Gives-set_other key k r h hit = elim (Bool-cases (is_feature org k r)) [
    | inl here ↦
        let hit' : is_feature org key r ≡ true = sym (is_feature-set key k r) ∙ hit in
        rw here (ap flags (sym (key_of_feature k r here) ∙ key_of_feature key r hit'))
    | inr miss ↦ rw miss (h (rw miss at hit))
  ]

  All-set : (k : String) (rows : List FeatureRow) → All (Gives org k (flags k)) (map (set k) rows)
  All-set k [] = tt
  All-set k (r ∷ rows) = (Gives-set k r, All-set k rows)

  All-set_other :
      (key k : String) (rows : List FeatureRow)
      → All (Gives org key (flags key)) rows
      → All (Gives org key (flags key)) (map (set k) rows)
  All-set_other key k [] h = tt
  All-set_other key k (r ∷ rows) (h, hs) = (Gives-set_other key k r h, All-set_other key k rows hs)

  pub unheld-Gives :
      (k : String) (rows : List FeatureRow)
      → any (is_feature org k) rows ≡ false
      → All (Gives org k (flags k)) rows
  unheld-Gives k [] h = tt
  unheld-Gives k (r ∷ rows) h = (λ hit. absurd (ground arith), unheld-Gives k rows (ground arith))

  -- A put key has its flag, and another keeps it.
  put_feature-Gives :
      (k : String) (rows : List FeatureRow)
      → All (Gives org k (flags k)) (put_feature org k (flags k) rows)
  put_feature-Gives k rows = elim (Bool-cases (any (is_feature org k) rows)) [
    | inl there ↦ rw there (All-set k rows)
    | inr fresh ↦
        rw fresh
          (All-append (Gives org k (flags k)) rows _ (unheld-Gives k rows fresh) (λ hit. refl, tt))
  ]

  put_feature-Gives_other :
      (key k : String) (rows : List FeatureRow)
      → All (Gives org key (flags key)) rows
      → All (Gives org key (flags key)) (put_feature org k (flags k) rows)
  put_feature-Gives_other key k rows h = elim (Bool-cases (any (is_feature org k) rows)) [
    | inl there ↦ rw there (All-set_other key k rows h)
    | inr fresh ↦ rw fresh (
        All-append (Gives org key (flags key)) rows (new_row k ∷ []) h
          (λ hit. ap flags (key_of_feature key (new_row k) hit), tt))
  ]

  put_all-Gives_other :
      (key : String) (ks : List String) (rows : List FeatureRow)
      → All (Gives org key (flags key)) rows
      → All (Gives org key (flags key)) (put_all org flags ks rows)
  unfolding put_all
  put_all-Gives_other key [] rows h = h
  put_all-Gives_other key (k ∷ ks) rows h =
      put_all-Gives_other key ks _ (put_feature-Gives_other key k rows h)

  -- Every key that was put has its flag.
  pub put_all-Gives :
      (key : String) (ks : List String) (rows : List FeatureRow)
      → has key ks ≡ true
      → All (Gives org key (flags key)) (put_all org flags ks rows)
  unfolding put_all
  put_all-Gives key [] rows h = absurd (ground arith)
  put_all-Gives key (k ∷ ks) rows h = elim (Bool-cases (k == key)) [
    | inl same ↦
        let here : All (Gives org key (flags key)) (put_feature org k (flags k) rows) =
          subst (λ c. All (Gives org c (flags c)) (put_feature org k (flags k) rows))
            ((eq_iff k key).0 same) (put_feature-Gives k rows) in
        put_all-Gives_other key ks _ here
    | inr other ↦ put_all-Gives key ks _ (rw other at h)
  ]

  Canonical-set : (k : String) (r : FeatureRow) → Canonical r → Canonical (set k r)
  Canonical-set k r c = elim (Bool-cases (is_feature org k r)) [
    | inl hit ↦ rw hit c
    | inr miss ↦ rw miss c
  ]

  Canonical-map :
      (k : String) (rows : List FeatureRow) → All Canonical rows → All Canonical (map (set k) rows)
  Canonical-map k [] h = tt
  Canonical-map k (r ∷ rows) (c, cs) = (Canonical-set k r c, Canonical-map k rows cs)

  Canonical-put_feature :
      (k : String) (rows : List FeatureRow)
      → to_lower (trim_space k) ≡ k
      → All Canonical rows
      → All Canonical (put_feature org k (flags k) rows)
  Canonical-put_feature k rows small h = elim (Bool-cases (any (is_feature org k) rows)) [
    | inl there ↦ rw there (Canonical-map k rows h)
    | inr fresh ↦ rw fresh (All-append Canonical rows (new_row k ∷ []) h (small, tt))
  ]

  pub Canonical-put_all :
      (ks : List String) (rows : List FeatureRow)
      → All (λ k. to_lower (trim_space k) ≡ k) ks
      → All Canonical rows
      → All Canonical (put_all org flags ks rows)
  unfolding put_all
  Canonical-put_all [] rows small h = h
  Canonical-put_all (k ∷ ks) rows (small, smalls) h =
      Canonical-put_all ks _ smalls (Canonical-put_feature k rows small h)

-- Where every row of the key has the value, and there is one or the value was there, so is the flag.
pub flag_lem :
    (key : String) (b value : Bool) (rows : List FeatureRow)
    → All (λ r. (to_lower (trim_space r.feature_key) == key) ≡ true → r.is_enabled ≡ b) rows
    → (any (λ r. to_lower (trim_space r.feature_key) == key) rows ≡ true) ⊎ (value ≡ b)
    → flag key value rows ≡ b
unfolding flag
flag_lem key b value [] h (inl some_row) = absurd (ground arith)
flag_lem key b value [] h (inr there) = there
flag_lem key b value (r ∷ rows) (h, hs) found =
    elim (Bool-cases (to_lower (trim_space r.feature_key) == key)) [
      | inl hit ↦ rw hit (flag_lem key b r.is_enabled rows hs (inr (h hit)))
      | inr miss ↦ rw miss (
          flag_lem key b value rows hs
            (elim found [ inl some_row ↦ inl (rw miss at some_row) | inr there ↦ inr there ]))
    ]
