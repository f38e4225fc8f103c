-- ===== src/Account/Rotate.antt =====
-- `rotate_owner` on each of its branches.
use stylus_mobile_native_aut.Base.{ℕ, ◌≡◌, true, false, [], ◌∷◌, ◌++◌, ok, err, arith}
use stylus_mobile_native_aut.Bytes.{Bytes}
use stylus_mobile_native_aut.Host.{Host}
use stylus_mobile_native_aut.Errors.{reentrancy, P256AccountError}
use stylus_mobile_native_aut.Validators.{validate_rotation_request}
use stylus_mobile_native_aut.Machine.{Machine, logged, owner_rotated}
use stylus_mobile_native_aut.Account.{rotate_owner, rotation_request, next_nonce}

module _ (host : Host) (new_x new_y n : ℕ) (sig : Bytes) (m : Machine) where
  pub rotate_owner-latched :
      m.account.in_call ≡ true → rotate_owner host new_x new_y n sig m ≡ (err reentrancy, m)
  unfolding rotate_owner
  rotate_owner-latched h = ground arith

  pub rotate_owner-rejected :
      {e : P256AccountError}
      → m.account.in_call ≡ false
      → validate_rotation_request host (rotation_request host m.account new_x new_y n sig) ≡ err e
      → rotate_owner host new_x new_y n sig m ≡ (err e, m)
  unfolding rotate_owner
  rotate_owner-rejected h v = ground arith

  pub rotate_owner-accepted :
      m.account.in_call ≡ false
      → validate_rotation_request host (rotation_request host m.account new_x new_y n sig) ≡ ok tt
      → rotate_owner host new_x new_y n sig m ≡ (
        ok tt,
        record {
          account = record {
            owner_x = new_x;
            owner_y = new_y;
            nonce = next_nonce m.account.nonce;
            in_call = false;
          };
          journal =
              m.journal
              ++ (logged (owner_rotated m.account.owner_x m.account.owner_y new_x new_y n) ∷ []);
        },
      )
  unfolding rotate_owner
  rotate_owner-accepted h v = ground arith
