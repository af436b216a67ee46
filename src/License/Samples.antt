-- ===== src/License/Samples.antt =====
-- The theorems on floating seats at a firm with a pool of one seat.
use tmis.Prelude.{
  ◌+◌, ◌≤◌, ◌<◌, String, ◌≡◌, refl, true, none, some, [], ◌∷◌, arith, nat_eq, string_eq, key_eq,
}
use tmis.Prelude.Dict.{get, values}
use tmis.Prelude.Python.{pool_exhausted_error, ok, raise, append}
use tmis.License.Seats.{
  counts, one_if, checkout_floating-seats, checked_out-revoke, checked_out-transfer_revoked,
}
use tmis.License.{
  floating, LicenseGrant, FloatingLicensePool, GrantStore, PoolStore, checked_out, revoke,
  new_grant, transfer, checkout_floating,
}

abbrev unsigned : String → String
unsigned payload = payload

abbrev pool_one : FloatingLicensePool
pool_one = record { firm_id = "f"; total_seats = 1 }

abbrev pools : PoolStore
pools = ("f", pool_one) ∷ []

abbrev taken : LicenseGrant
taken = new_grant unsigned "g1" 0 "f" floating "ann" 100 none

abbrev grants_taken : GrantStore
grants_taken = (("f", "g1"), taken) ∷ []

found_taken : get grants_taken ("f", "g1") ≡ some taken
unfolding get
found_taken = refl

abbrev given_back : LicenseGrant
given_back = record taken { revoked = true }

abbrev grants : GrantStore
grants = (("f", "g1"), given_back) ∷ []

found_pool : get pools "f" ≡ some pool_one
unfolding get
found_pool = refl

found_grant : get grants ("f", "g1") ≡ some given_back
unfolding get
found_grant = refl

new_id_free : get grants ("f", "g2") ≡ none
unfolding get
new_id_free = refl

checkout_floating-seats_example :
    (checked_out 5 grants "f" < 1
      → (g : LicenseGrant) × ((checkout_floating unsigned "g2" 5 unsigned pools grants "f" "bob"
            1).0
          ≡ ok g)
        × (checked_out 5 (checkout_floating unsigned "g2" 5 unsigned pools grants "f" "bob" 1).1 "f"
            ≤ 1))
    × (1 ≤ checked_out 5 grants "f"
        → ((checkout_floating unsigned "g2" 5 unsigned pools grants "f" "bob" 1).0
            ≡ raise (pool_exhausted_error (append "floating pool exhausted for firm " "f")))
          × ((checkout_floating unsigned "g2" 5 unsigned pools grants "f" "bob" 1).1 ≡ grants))
checkout_floating-seats_example =
    checkout_floating-seats 5 "f" unsigned unsigned "g2" pools grants "bob" 1 pool_one found_pool

checked_out-revoke_example :
    ((revoke grants_taken "f" "g1").0 ≡ ok given_back)
    × (get (revoke grants_taken "f" "g1").1 ("f", "g1") ≡ some given_back)
    × (checked_out 5 (revoke grants_taken "f" "g1").1 "f" + one_if (counts 5 "f" taken)
        ≡ checked_out 5 grants_taken "f")
checked_out-revoke_example =
    checked_out-revoke 5 "f" grants_taken "f" "g1" taken found_taken refl refl

seat_taken : checked_out 5 grants_taken "f" ≡ 1
unfolding checked_out values
seat_taken = refl

checked_out-transfer_revoked_example :
    checked_out 5 (transfer unsigned "g2" 5 grants "f" "g1" "bob").1 "f"
    ≡ checked_out 5 grants "f" + 1
checked_out-transfer_revoked_example =
    checked_out-transfer_revoked 5 "f" unsigned "g2" grants "g1" "bob" given_back found_grant refl
      refl refl refl (omega arith) new_id_free
