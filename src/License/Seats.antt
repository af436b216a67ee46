-- ===== src/License/Seats.antt =====
-- How many floating seats of a firm are taken.
use tmis.Prelude.{
  ℕ, ◌+◌, ◌*◌, ◌≤◌, ◌<◌, String, ◌≡◌, refl, sym, ap, subst, inl, inr, Bool, true, false, ◌&&◌, none,
  some, List, [], ◌∷◌, arith, eq_iff, leb, if◌then◌else◌, Bool-cases, HasEq, ◌==◌, nat_eq,
  string_eq, key_eq, length, keep, pair_path,
}
use tmis.Prelude.Dict.{get, put, values, get-put, get-put_self}
use tmis.Prelude.Python.{pool_exhausted_error, ok, raise, append}
use tmis.License.{
  floating, LicenseGrant, FloatingLicensePool, is_active, GrantStore, save, PoolStore, takes_seat,
  checked_out, require, revoke, new_grant, transfer, checkout_floating,
}

-- Whether a value of the store is a seat of the firm.
abbrev pub counts : ℕ → String → LicenseGrant → Bool
counts now firm_id g = g.firm_id == firm_id && takes_seat now g

abbrev pub one_if : Bool → ℕ
one_if b = if b then 1 else 0

one_if_le : (b : Bool) → one_if b ≤ 1
one_if_le true = omega arith
one_if_le false = omega arith

revoked_counts :
    (now : ℕ) (firm_id : String) (g : LicenseGrant)
    → g.revoked ≡ true
    → counts now firm_id g ≡ false
unfolding is_active
revoked_counts now firm_id g e = ground arith

required_grant :
    (grants : GrantStore) (firm_id grant_id : String) (g : LicenseGrant)
    → get grants (firm_id, grant_id) ≡ some g
    → require grants firm_id grant_id ≡ ok g
unfolding require
required_grant grants firm_id grant_id g found = rw (found, require) refl

keep-keep :
    {A : Type 0} (p q : A → Bool) (xs : List A)
    → length (keep p (keep q xs)) ≡ length (keep (λ x. q x && p x) xs)
keep-keep p q [] = refl
keep-keep p q (x ∷ xs) = ground (arith, keep-keep p q xs)

-- A write adds the value, and takes away what stood under its key.
length-keep-put :
    (p : LicenseGrant → Bool) (d : GrantStore) (k : String × String) (v : LicenseGrant)
    → length (keep p (values (put d k v))) + one_if (elim (get d k) [ none ↦ false | some w ↦ p w ])
      ≡ length (keep p (values d)) + one_if (p v)
unfolding values put get
length-keep-put p [] k v = ground arith
length-keep-put p ((j, w) ∷ d) k v = ground (arith, length-keep-put p d k v)

module _ (now : ℕ) (firm_id : String) where
  checked_out-eq :
      (grants : GrantStore)
      → checked_out now grants firm_id ≡ length (keep (counts now firm_id) (values grants))
  unfolding checked_out
  checked_out-eq grants = keep-keep (takes_seat now) (λ g. g.firm_id == firm_id) (values grants)

  checked_out-save :
      (grants : GrantStore) (g : LicenseGrant)
      → checked_out now (save grants g) firm_id
        ≤ checked_out now grants firm_id + one_if (counts now firm_id g)
  unfolding save
  checked_out-save grants g =
      let put_lem = length-keep-put (counts now firm_id) grants (g.firm_id, g.id) g in
      omega (arith, put_lem, checked_out-eq grants, checked_out-eq (put grants (g.firm_id, g.id) g))

  checked_out-save_new :
      (grants : GrantStore) (g : LicenseGrant)
      → elim (get grants (g.firm_id, g.id)) [ none ↦ false | some w ↦ counts now firm_id w ] ≡ false
      → checked_out now (save grants g) firm_id
        ≡ checked_out now grants firm_id + one_if (counts now firm_id g)
  unfolding save
  checked_out-save_new grants g fresh =
      let put_lem = length-keep-put (counts now firm_id) grants (g.firm_id, g.id) g in
      omega (
        arith,
        put_lem,
        ap one_if fresh,
        checked_out-eq grants,
        checked_out-eq (put grants (g.firm_id, g.id) g),
      )

  new_counts :
      (g : LicenseGrant)
      → g.firm_id ≡ firm_id
      → g.license_type ≡ floating
      → g.revoked ≡ false
      → now ≤ g.expires_at
      → counts now firm_id g ≡ true
  unfolding is_active
  new_counts g firm kind live term = ground (arith, eq_iff g.firm_id firm_id)

  get-save_new :
      (grants : GrantStore) (g h : LicenseGrant) (k : String × String)
      → get grants (g.firm_id, g.id) ≡ some h
      → get grants k ≡ none
      → get (save grants g) k ≡ none
  unfolding save
  get-save_new grants g h k there new = elim (Bool-cases (HasEq.test key_eq (g.firm_id, g.id) k)) [
    | inl same ↦
        let eq = (HasEq.test_iff key_eq (g.firm_id, g.id) k).0 same in
        absurd (cc (subst (λ j. get grants j ≡ some h) eq there))
    | inr other ↦ rw get-put (rw other new)
  ]

  -- Checking out a seat of a configured pool succeeds exactly if fewer seats are taken than the
  -- pool has, and then no more seats are taken afterwards than the pool has; otherwise the call
  -- raises and the store is unchanged.
  pub checkout_floating-seats :
      (sign repr : String → String) (new_id : String) (pools : PoolStore) (grants : GrantStore)
      (holder_id : String) (duration_hours : ℕ) (pool : FloatingLicensePool)
      → get pools firm_id ≡ some pool
      → (checked_out now grants firm_id < pool.total_seats
          → (g : LicenseGrant) × ((checkout_floating sign new_id now repr pools grants firm_id
                holder_id duration_hours).0
              ≡ ok g)
            × (checked_out now
                  (checkout_floating sign new_id now repr pools grants firm_id holder_id
                    duration_hours).1
                  firm_id
                ≤ pool.total_seats))
        × (pool.total_seats ≤ checked_out now grants firm_id
            → ((checkout_floating sign new_id now repr pools grants firm_id holder_id
                  duration_hours).0
                ≡ raise (
                    pool_exhausted_error
                      (append "floating pool exhausted for firm " (repr firm_id))))
              × ((checkout_floating sign new_id now repr pools grants firm_id holder_id
                    duration_hours).1
                  ≡ grants))
  unfolding checkout_floating
  checkout_floating-seats sign repr new_id pools grants holder_id hours pool found =
      let grant = new_grant sign new_id now firm_id floating holder_id (now + hours * 3600) none in
      (
        λ room.
            let free : leb pool.total_seats (checked_out now grants firm_id) ≡ false =
              ground arith in
            let grown = checked_out-save grants grant in
            let one_more = one_if_le (counts now firm_id grant) in
            (
              grant,
              rw (found, checkout_floating) (rw free refl),
              rw (found, checkout_floating) (rw free (omega arith)),
            ),
        λ full.
            let taken : leb pool.total_seats (checked_out now grants firm_id) ≡ true =
              ground arith in
            (
              rw (found, checkout_floating) (rw taken refl),
              rw (found, checkout_floating) (rw taken refl),
            ),
      )

  -- Revoking a grant that stands under its own key returns it revoked and stores it so, and frees
  -- the seat that it took: if it took one of the firm's seats then one less is taken afterwards, and
  -- else as many as before, of this firm or of another.
  pub checked_out-revoke :
      (grants : GrantStore) (firm grant_id : String) (g : LicenseGrant)
      → get grants (firm, grant_id) ≡ some g
      → g.firm_id ≡ firm
      → g.id ≡ grant_id
      → ((revoke grants firm grant_id).0 ≡ ok (record g { revoked = true }))
        × (get (revoke grants firm grant_id).1 (firm, grant_id)
            ≡ some (record g { revoked = true }))
        × (checked_out now (revoke grants firm grant_id).1 firm_id + one_if (counts now firm_id g)
            ≡ checked_out now grants firm_id)
  unfolding revoke save
  checked_out-revoke grants firm grant_id g found owner ident =
      let gone = record g { revoked = true } in
      let here : get grants (g.firm_id, g.id) ≡ some g =
        subst (λ k. get grants k ≡ some g) (pair_path (sym owner) (sym ident)) found in
      let required : require grants firm grant_id ≡ ok g =
        required_grant grants firm grant_id g found in
      let replaced = length-keep-put (counts now firm_id) grants (g.firm_id, g.id) gone in
      let none_more = revoked_counts now firm_id gone refl in
      let seats : checked_out now (put grants (g.firm_id, g.id) gone) firm_id
            + one_if (counts now firm_id g)
          ≡ checked_out now grants firm_id =
        omega (
          arith,
          rw here at replaced,
          ap one_if none_more,
          checked_out-eq grants,
          checked_out-eq (put grants (g.firm_id, g.id) gone),
        ) in
      (
        rw (required, revoke) refl,
        rw (required, revoke)
            (subst (λ k. get (put grants (g.firm_id, g.id) gone) k ≡ some gone)
              (pair_path owner ident) (get-put_self grants (g.firm_id, g.id) gone)),
        rw (required, revoke) seats,
      )

  -- `transfer` does not ask whether the grant is active. Transferring a floating grant that was
  -- revoked or checked in and stands under its own key takes one more seat, however many the pool
  -- has, if its term is not over and the new identifier is new.
  pub checked_out-transfer_revoked :
      (sign : String → String) (new_id : String) (grants : GrantStore) (grant_id holder_id : String)
      (old : LicenseGrant)
      → get grants (firm_id, grant_id) ≡ some old
      → old.firm_id ≡ firm_id
      → old.id ≡ grant_id
      → old.license_type ≡ floating
      → old.revoked ≡ true
      → now ≤ old.expires_at
      → get grants (firm_id, new_id) ≡ none
      → checked_out now (transfer sign new_id now grants firm_id grant_id holder_id).1 firm_id
        ≡ checked_out now grants firm_id + 1
  unfolding transfer
  checked_out-transfer_revoked sign new_id grants grant_id holder_id old found firm ident kind gone
        term new =
      let old' = record old { revoked = true } in
      let grant =
        new_grant sign new_id now firm_id old.license_type holder_id old.expires_at (some old.id) in
      let here : get grants (old.firm_id, old.id) ≡ some old =
        subst (λ k. get grants k ≡ some old) (pair_path (sym firm) (sym ident)) found in
      let first_save =
        checked_out-save_new grants old' (rw here (revoked_counts now firm_id old gone)) in
      let fresh = get-save_new grants old' old (firm_id, new_id) here new in
      let second_save = checked_out-save_new (save grants old') grant (rw fresh refl) in
      let required : require grants firm_id grant_id ≡ ok old =
        required_grant grants firm_id grant_id old found in
      rw (required, transfer)
        (omega (
          arith,
          first_save,
          second_save,
          ap one_if (revoked_counts now firm_id old' refl),
          ap one_if (new_counts grant refl kind refl term),
        ))
