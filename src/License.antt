-- ===== src/License.antt =====
-- License grants and floating seats: backend/src/tmis/business_platform/licenses (schemas.py,
-- store.py and engine.py).
pub mod Seats
mod Samples
use tmis.Prelude.{
  ℕ, ◌+◌, ◌*◌, String, Bool, true, false, not, ◌&&◌, Option, none, some, List, ltb, leb,
  if◌then◌else◌, ◌==◌, nat_eq, string_eq, key_eq, length, keep,
}
use tmis.Prelude.Dict.{Dict, get, put, values}
use tmis.Prelude.Python.{key_error, value_error, pool_exhausted_error, Result, ok, raise, append}

pub data LicenseType : Type 0 where
  nominative floating guest api : LicenseType

abbrev pub value : LicenseType → String
value nominative = "nominative"
value floating = "floating"
value guest = "guest"
value api = "api"

-- Times are in seconds.
pub record LicenseGrant : Type 0 where
  pub id : String
  pub firm_id : String
  pub license_type : LicenseType
  pub holder_id : Option String
  pub key : String
  pub granted_at : ℕ
  pub expires_at : ℕ
  pub revoked : Bool
  pub transferred_from : Option String

pub record FloatingLicensePool : Type 0 where
  pub firm_id : String
  pub total_seats : ℕ

unfoldable pub is_expired : ℕ → LicenseGrant → Bool
is_expired now grant = ltb grant.expires_at now

unfoldable pub is_active : ℕ → LicenseGrant → Bool
unfolding is_expired
is_active now grant = not grant.revoked && not (is_expired now grant)

-- `InMemoryLicenseGrantStore`
abbrev pub GrantStore : Type 0
GrantStore = Dict (String × String) LicenseGrant

unfoldable pub save : GrantStore → LicenseGrant → GrantStore
save grants grant = put grants (grant.firm_id, grant.id) grant

unfoldable pub list_for_firm : GrantStore → String → List LicenseGrant
list_for_firm grants firm_id = keep (λ g. g.firm_id == firm_id) (values grants)

abbrev pub held_by : Option String → String → Bool
held_by none holder_id = false
held_by (some h) holder_id = h == holder_id

unfoldable pub list_for_holder : GrantStore → String → String → List LicenseGrant
list_for_holder grants firm_id holder_id =
    keep (λ g. g.firm_id == firm_id && held_by g.holder_id holder_id) (values grants)

-- `InMemoryFloatingPoolStore`
abbrev pub PoolStore : Type 0
PoolStore = Dict String FloatingLicensePool

unfoldable pub set_floating_pool_capacity : PoolStore → String → ℕ → FloatingLicensePool × PoolStore
set_floating_pool_capacity pools firm_id total_seats =
    let pool : FloatingLicensePool = record { firm_id = firm_id; total_seats = total_seats } in
    (pool, put pools pool.firm_id pool)

abbrev pub is_floating : LicenseType → Bool
is_floating floating = true
is_floating _ = false

-- `_encode`
unfoldable pub encode : String → String → LicenseType → String
encode grant_id firm_id license_type =
    append grant_id (append "|" (append firm_id (append "|" (value license_type))))

-- Whether the grant takes one of the firm's floating seats.
abbrev pub takes_seat : ℕ → LicenseGrant → Bool
takes_seat now grant = is_floating grant.license_type && is_active now grant

-- `sum(1 for g in list_for_firm(firm_id) if ...)`
unfoldable pub checked_out : ℕ → GrantStore → String → ℕ
unfolding list_for_firm is_active
checked_out now grants firm_id = length (keep (takes_seat now) (list_for_firm grants firm_id))

unfoldable pub require : GrantStore → String → String → Result LicenseGrant
require grants firm_id grant_id = elim (get grants (firm_id, grant_id)) [
  | none ↦ raise (key_error grant_id)
  | some grant ↦ ok grant
]

-- `active_grants_for_firm` and `active_grants_for_holder`
unfoldable pub active_grants_for_firm : ℕ → GrantStore → String → List LicenseGrant
unfolding list_for_firm is_active
active_grants_for_firm now grants firm_id = keep (is_active now) (list_for_firm grants firm_id)

unfoldable pub active_grants_for_holder : ℕ → GrantStore → String → String → List LicenseGrant
unfolding list_for_holder is_active
active_grants_for_holder now grants firm_id holder_id =
    keep (is_active now) (list_for_holder grants firm_id holder_id)

-- `revoke`, and `checkin_floating`, which does the same.
unfoldable pub revoke : GrantStore → String → String → Result LicenseGrant × GrantStore
revoke grants firm_id grant_id = elim (require grants firm_id grant_id) [
  | raise exc ↦ (raise exc, grants)
  | ok grant ↦
      let revoked_grant = record grant { revoked = true } in
      (ok revoked_grant, save grants revoked_grant)
]

unfoldable pub checkin_floating : GrantStore → String → String → Result LicenseGrant × GrantStore
unfolding revoke
checkin_floating = revoke

-- The signer, the new identifier and the time are arguments.
module _ (sign : String → String) (new_id : String) (now : ℕ) where
  abbrev pub new_grant : String → LicenseType → String → ℕ → Option String → LicenseGrant
  new_grant firm_id license_type holder_id expires_at transferred_from = record {
    id = new_id;
    firm_id = firm_id;
    license_type = license_type;
    holder_id = some holder_id;
    key = sign (encode new_id firm_id license_type);
    granted_at = now;
    expires_at = expires_at;
    revoked = false;
    transferred_from = transferred_from;
  }

  unfoldable pub assign :
      GrantStore → String → LicenseType → String → ℕ → Result LicenseGrant × GrantStore
  unfolding save
  assign grants firm_id license_type holder_id duration_days =
      let grant = new_grant firm_id license_type holder_id (now + duration_days * 86_400) none in
      if is_floating license_type
      then (raise (value_error "use checkout_floating for FLOATING licenses"), grants)
      else (ok grant, save grants grant)

  unfoldable pub transfer : GrantStore → String → String → String → Result LicenseGrant × GrantStore
  transfer grants firm_id grant_id new_holder_id = elim (require grants firm_id grant_id) [
    | raise exc ↦ (raise exc, grants)
    | ok old ↦
        let grant = new_grant firm_id old.license_type new_holder_id old.expires_at (some old.id) in
        (ok grant, save (save grants (record old { revoked = true })) grant)
  ]

  unfoldable pub checkout_floating :
      (String → String)
      → PoolStore
      → GrantStore
      → String
      → String
      → ℕ
      → Result LicenseGrant × GrantStore
  checkout_floating repr pools grants firm_id holder_id duration_hours = elim (get pools firm_id) [
    | none ↦ (
      raise (pool_exhausted_error (append "no floating pool configured for firm " (repr firm_id))),
      grants,
    )
    | some pool ↦
        let grant = new_grant firm_id floating holder_id (now + duration_hours * 3600) none in
        if leb pool.total_seats (checked_out now grants firm_id)
        then (
          raise (pool_exhausted_error (append "floating pool exhausted for firm " (repr firm_id))),
          grants,
        )
        else (ok grant, save grants grant)
  ]
