-- ===== src/Controller/Laws/Failures.antt =====
-- internal/controller/reconciler.go: the entries that the failures in a message lead to.
use multi_network_interface.Prelude.{
  ℕ, suc, ◌≡◌, ◌≢◌, refl, ap, ◌⊎◌, inl, inr, Bool, true, false, not, Option, none, some, List, [],
  ◌∷◌, arith, Bool-cases, Option-cases,
}
use multi_network_interface.Prelude.Int.{ℤ, pos, ◌==ℤ◌, ==ℤ_iff}
use multi_network_interface.Prelude.Text.{Text, text, eqb_iff, is_empty, to_lower, trim_space}
use mathlib.Core.List.{Memᴰ}
use multi_network_interface.Host.{multinic}
use multi_network_interface.Controller.Objects.{Value, Dict, get_string, get_int, StatusEntry}
use multi_network_interface.Controller.Entries.{
  Failure, or_empty, find_last, has_id, has_mac_address, fail_by_id, fail_by_mac, when_found,
  failure_of, classified, failure_entries,
}

-- The id or the MAC address of an element of the spec.
abbrev pub id_in : Option (Dict Value) → ℤ
id_in m = get_int (or_empty m) (text "id")

abbrev pub mac_in : Option (Dict Value) → Text
mac_in m = to_lower (get_string (or_empty m) (text "macAddress"))

-- A failure is about the element: it has its id, which is not zero, or its MAC address, which is not
-- empty, up to case and blanks around it.
abbrev pub About : ℤ → Text → Failure → Type 0
About id mac f =
    ((f.id ≡ id) × (id ≢ pos 0))
    ⊎ ((is_empty (trim_space f.mac) ≡ false) × (to_lower (trim_space f.mac) ≡ mac) × (mac ≢ []))

-- The entry of the element at position `i` says that it failed, with the reason of a failure that is
-- about it, or that it is configured, and then no failure is.
abbrev pub IsMarked : List Failure → ℕ → Option (Dict Value) → StatusEntry → Type 0
IsMarked failures i m e =
    (e.name ≡ multinic i)
    × (e.interface_index ≡ some i)
    × (((f : Failure) × Memᴰ f failures
          × About (id_in m) (mac_in m) f
          × (e.status ≡ some (text "Failed"))
          × (e.message ≡ some f.reason))
        ⊎ (((f : Failure) → Memᴰ f failures → ¬ About (id_in m) (mac_in m) f)
            × (e.status ≡ some (text "Configured"))
            × (e.message ≡ none)))

-- Each element of the spec has one entry, in the same order, from position `i` on.
abbrev pub AreMarked : List Failure → ℕ → List (Option (Dict Value)) → List StatusEntry → Type 0
AreMarked failures i [] [] = Unit
AreMarked failures i (m ∷ ms) (e ∷ es) = IsMarked failures i m e × AreMarked failures (suc i) ms es
AreMarked failures i _ _ = ⊥

find_last-some {ℓ} :
    {A : Type ℓ} (test : A → Bool) (l : List A) {a : A}
    → find_last test l ≡ some a
    → Memᴰ a l × (test a ≡ true)
unfolding find_last
find_last-some test [] h = absurd (cc)
find_last-some test (x ∷ l) {a} h = elim (Option-cases (find_last test l)) [
  | inr (b, e) ↦
      let same : b ≡ a = ground arith in
      let (m, t) = find_last-some test l e in (Memᴰ.tail (rw same at m), rw same at t)
  | inl missing ↦ elim (Bool-cases (test x)) [
    | inl passes ↦ let same : a ≡ x = ground arith in (Memᴰ.head same, rw same passes)
    | inr fails ↦ absurd (ground arith)
  ]
]

find_last-none {ℓ} :
    {A : Type ℓ} (test : A → Bool) (l : List A)
    → find_last test l ≡ none
    → (a : A) → Memᴰ a l
    → test a ≡ false
unfolding find_last
find_last-none test [] h a m = elim m [ ]
find_last-none test (x ∷ l) h a (Memᴰ.head e) = elim (Bool-cases (test x)) [
  | inl passes ↦ ground arith
  | inr fails ↦ rw e fails
]
find_last-none test (x ∷ l) h a (Memᴰ.tail m) = find_last-none test l (ground arith) a m

is_empty_lem : (s : Text) → is_empty s ≡ true → s ≡ []
is_empty_lem [] h = refl
is_empty_lem (c ∷ s) h = absurd (cc)

-- What a search for a failure finds.
abbrev Right : List Failure → ℤ → Text → Option Failure → Type 0
Right failures id mac none = (f : Failure) → Memᴰ f failures → ¬ About id mac f
Right failures id mac (some f) = Memᴰ f failures × About id mac f

module _ (failures : List Failure) (id : ℤ) (mac : Text) where
  id-Right :
      (f : Failure)
      → not (id ==ℤ pos 0) ≡ true
      → fail_by_id id failures ≡ some f
      → Right failures id mac (some f)
  unfolding fail_by_id
  id-Right f nonzero h =
      let (m, t) = find_last-some (has_id id) failures h in
      (m, inl ((==ℤ_iff f.id id).0 t, λ e. ground (arith, (==ℤ_iff id (pos 0)).1 e)))

  mac-Right :
      (f : Failure)
      → not (is_empty mac) ≡ true
      → fail_by_mac mac failures ≡ some f
      → Right failures id mac (some f)
  unfolding fail_by_mac
  mac-Right f nonempty h =
      let (m, t) = find_last-some (has_mac_address mac) failures h in
      (
        m,
        inr (
          ground arith,
          (eqb_iff (to_lower (trim_space f.mac)) mac).0 (ground arith),
          λ e. ground (arith, ap is_empty e),
        ),
      )

  no_id : (f : Failure) → Memᴰ f failures → fail_by_id id failures ≡ none → f.id ≢ id
  unfolding fail_by_id
  no_id f m h e = ground (arith, find_last-none (has_id id) failures h f m, (==ℤ_iff f.id id).1 e)

  no_mac :
      (f : Failure)
      → Memᴰ f failures
      → fail_by_mac mac failures ≡ none
      → is_empty (trim_space f.mac) ≡ false
      → to_lower (trim_space f.mac) ≢ mac
  unfolding fail_by_mac
  no_mac f m h nonempty e = ground (
    arith,
    find_last-none (has_mac_address mac) failures h f m,
    (eqb_iff (to_lower (trim_space f.mac)) mac).1 e,
  )

  by_mac-Right :
      ((f : Failure) → Memᴰ f failures → id ≢ pos 0 → f.id ≢ id)
      → Right failures id mac (when_found (not (is_empty mac)) (fail_by_mac mac failures) none)
  by_mac-Right others = elim (Bool-cases (is_empty mac)) [
    | inl blank ↦ rw blank (λ f m about. elim about [
      | inl (same, nonzero) ↦ others f m nonzero same
      | inr (_, _, nonempty) ↦ nonempty (is_empty_lem mac blank)
    ])
    | inr full ↦ elim (Option-cases (fail_by_mac mac failures)) [
      | inl missing ↦
          rw (full, missing)
            (λ f m about. elim about [
              | inl (same, nonzero) ↦ others f m nonzero same
              | inr (nonempty, same, _) ↦ no_mac f m missing nonempty same
            ])
      | inr (f, e) ↦ rw (full, e) (mac-Right f (ground arith) e)
    ]
  ]

  failure_of-Right : Right failures id mac (failure_of failures id mac)
  unfolding failure_of
  failure_of-Right = elim (Bool-cases (id ==ℤ pos 0)) [
    | inl zero_id ↦
        rw zero_id (by_mac-Right (λ f m nonzero. absurd (nonzero ((==ℤ_iff id (pos 0)).0 zero_id))))
    | inr nonzero ↦ elim (Option-cases (fail_by_id id failures)) [
      | inl missing ↦ rw (nonzero, missing) (by_mac-Right (λ f m _. no_id f m missing))
      | inr (f, e) ↦ rw (nonzero, e) (id-Right f (ground arith) e)
    ]
  ]

classified-IsMarked :
    (failed fine : Text) (failures : List Failure) (i : ℕ) (m : Option (Dict Value))
    (o : Option Failure)
    → Right failures (id_in m) (mac_in m) o
    → IsMarked failures i m (classified failed fine i (id_in m) (mac_in m) o)
unfolding classified
classified-IsMarked failed fine failures i m none right = (refl, refl, inr (right, refl, refl))
classified-IsMarked failed fine failures i m (some f) (member, about) =
    (refl, refl, inl (f, member, about, refl, refl))

-- The entries for the failures in a message: each element of the spec has one, in the same order,
-- and it says that the element failed, with the reason of a failure that is about it, if there is
-- such a failure, and that it is configured if there is none.
pub failure_entries-AreMarked :
    (failed fine : Text) (failures : List Failure) (i : ℕ) (ms : List (Option (Dict Value)))
    → AreMarked failures i ms (failure_entries failed fine failures i ms)
unfolding failure_entries
failure_entries-AreMarked failed fine failures i [] = tt
failure_entries-AreMarked failed fine failures i (m ∷ ms) = (
  classified-IsMarked failed fine failures i m (failure_of failures (id_in m) (mac_in m))
      (failure_of-Right failures (id_in m) (mac_in m)),
  failure_entries-AreMarked failed fine failures (suc i) ms,
)
