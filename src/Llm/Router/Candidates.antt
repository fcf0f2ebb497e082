-- ===== src/Llm/Router/Candidates.antt =====
-- router.go: which providers are candidates.
use buat_postingan.Base.{
  ℕ, zero, suc, ◌%◌, String, ◌≡◌, refl, sym, ap, ◌∙◌, Bool, Option, none, some, is_empty, true,
  false, not, ◌&&◌, ◌||◌, List, [], ◌∷◌, ◌++◌, str_eq, eq_iff, arith, Bool-cases, inl, inr, length,
}
use buat_postingan.Config.Effort.{one_of}
use buat_postingan.Base.Int.{ℤ, pos}
use buat_postingan.Llm.Router.{
  Provider, provider_of, enabled_ids, without, drop, take, rotate_round_robin, ordered,
  candidates_for,
}

one_of-without :
    (id : String) (xs : List String) (x : String)
    → one_of (without id xs) x ≡ (one_of xs x && not (str_eq x id))
unfolding one_of without
one_of-without id [] x = refl
one_of-without id (y ∷ xs) x =
    ground (arith, one_of-without id xs x, eq_iff y id, eq_iff x id, eq_iff x y)

one_of-append :
    (xs ys : List String) (x : String) → one_of (xs ++ ys) x ≡ (one_of xs x || one_of ys x)
unfolding one_of
one_of-append [] ys x = refl
one_of-append (y ∷ xs) ys x = ground (arith, one_of-append xs ys x)

one_of-split :
    (n : ℕ) (xs : List String) (x : String)
    → (one_of (drop n xs) x || one_of (take n xs) x) ≡ one_of xs x
unfolding one_of drop take
one_of-split zero xs x = ground arith
one_of-split (suc n) [] x = refl
one_of-split (suc n) (y ∷ xs) x = ground (arith, one_of-split n xs x)

right_of : (a b : Bool) → (a && b) ≡ true → b ≡ true
right_of a b h = ground arith

-- the chosen one first
one_of-first :
    (id : String) (xs : List String) (x : String)
    → one_of xs id ≡ true
    → one_of (id ∷ without id xs) x ≡ one_of xs x
unfolding one_of
one_of-first id xs x h = elim (Bool-cases (str_eq x id)) [
  | inl e ↦ rw (e, (eq_iff x id).0 e, h)
  | inr e ↦ ground (arith, one_of-without id xs x)
]

-- A rotation that does not panic keeps the ids.
one_of-rotate :
    (cursor : ℕ) (xs : List String)
    → (r : List String × ℤ) × (rotate_round_robin (pos cursor) xs ≡ some r)
      × ((x : String) → one_of r.0 x ≡ one_of xs x)
unfolding rotate_round_robin
one_of-rotate cursor [] = (_, refl, λ x. refl)
one_of-rotate cursor (y ∷ xs) = (
  _,
  refl,
  λ x.
      one_of-append (drop (cursor % suc (length xs)) (y ∷ xs)) _ x
      ∙ one_of-split (cursor % suc (length xs)) (y ∷ xs) x,
)

one_of-ordered :
    (strategy active pinned : String) (cursor : ℕ) (enabled : List String)
    → str_eq strategy "switch" ≡ false
    → (r : List String × ℤ) × (ordered strategy active pinned (pos cursor) enabled ≡ some r)
      × ((x : String) → one_of r.0 x ≡ one_of enabled x)
unfolding ordered
one_of-ordered strategy active pinned cursor enabled h =
    elim (Bool-cases (not (is_empty pinned) && one_of enabled pinned)) [
      | inl first ↦ (
        (pinned ∷ without pinned enabled, pos cursor),
        rw (h, first) refl,
        λ x. one_of-first pinned enabled x (right_of _ _ first),
      )
      | inr unpinned ↦ elim (Bool-cases (str_eq strategy "round_robin")) [
        | inl turns ↦
            let (r, same, all) = one_of-rotate cursor enabled in
            (r, rw (h, unpinned, turns) same, all)
        | inr fixed ↦
            elim (Bool-cases
              (str_eq strategy "failover" && not (is_empty active) && one_of enabled active)) [
                | inl first ↦ (
                  (active ∷ without active enabled, pos cursor),
                  rw (h, unpinned, fixed, first) refl,
                  λ x. one_of-first active enabled x (right_of _ _ first),
                )
                | inr plain ↦
                    ((enabled, pos cursor), rw (h, unpinned, fixed, plain) refl, λ x. refl)
              ]
      ]
    ]

-- Whether the map has the id.
abbrev pub has_key : List (String × Provider) → String → Bool
has_key [] id = false
has_key (p ∷ ps) id = str_eq p.0 id || has_key ps id

-- The keys of a map differ.
abbrev pub IsMap : List (String × Provider) → Type 0
IsMap [] = Unit
IsMap (p ∷ ps) = (has_key ps p.0 ≡ false) × IsMap ps

-- `cfg.Providers[id].Enabled`, false for an id that is no key
abbrev pub is_on : Option Provider → Bool
is_on none = false
is_on (some p) = p.enabled

no_key :
    (ps : List (String × Provider)) (id : String)
    → has_key ps id ≡ false
    → one_of (enabled_ids ps) id ≡ false
unfolding one_of enabled_ids
no_key [] id h = refl
no_key (p ∷ ps) id h =
    let rest = no_key ps id (ground (arith, h)) in
    ground (arith, h, rest, eq_iff p.0 id, eq_iff id p.0)

one_of-enabled_ids :
    (ps : List (String × Provider)) (id : String)
    → IsMap ps
    → one_of (enabled_ids ps) id ≡ is_on (provider_of ps id)
unfolding one_of enabled_ids provider_of
one_of-enabled_ids [] id h = refl
one_of-enabled_ids (p ∷ ps) id h = elim (Bool-cases (str_eq p.0 id)) [
  | inl e ↦
      let missing : one_of (enabled_ids ps) id ≡ false =
        no_key ps id (ap (has_key ps) (sym ((eq_iff p.0 id).0 e)) ∙ h.0) in
      ground (arith, e, missing, eq_iff p.0 id, eq_iff id p.0)
  | inr e ↦
      let rest = one_of-enabled_ids ps id h.1 in
      ground (arith, e, rest, eq_iff p.0 id, eq_iff id p.0)
]

-- Under any strategy but `switch`, and with a cursor that is not negative, `candidatesFor` answers,
-- and its candidates are exactly the providers of the map whose `Enabled` is set, whichever is
-- pinned or active and wherever the cursor stands.
pub candidates_for-enabled :
    (strategy active pinned : String) (cursor : ℕ) (ps : List (String × Provider))
    → IsMap ps
    → str_eq strategy "switch" ≡ false
    → (r : List String × ℤ) × (candidates_for strategy active pinned (pos cursor) ps ≡ some r)
      × ((x : String) → one_of r.0 x ≡ is_on (provider_of ps x))
unfolding candidates_for
candidates_for-enabled strategy active pinned cursor ps keys h =
    let (r, same, all) = one_of-ordered strategy active pinned cursor (enabled_ids ps) h in
    (r, same, λ x. all x ∙ one_of-enabled_ids ps x keys)
