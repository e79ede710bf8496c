-- ===== src/Embassy/Passwords.antt =====
-- `cpin` of rylr998-embassy/src/lib.rs copies the password into a string of eight bytes.
use rylr998_rs.Base.{◌≡◌, ◌⊎◌, refl, [], inl, inr, some, Bytes, ok}
use rylr998_rs.Types.{Response}
use rylr998_rs.Decode.{parse_response}
use rylr998_rs.Decode.Text.{IsPassword}
use rylr998_rs.Decode.Bounds.{parse_response-Ensures}
use rylr998_rs.Embassy.Methods.{wait_cpin}

fits_eight : (pw : Bytes) → (pw ≡ []) ⊎ IsPassword pw → wait_cpin (Response.cpin pw) ≡ some (ok pw)
unfolding wait_cpin
fits_eight pw (inl e) = rw e refl
fits_eight pw (inr p) = rw p.eight refl

-- Whatever password the decoder accepts fits the eight bytes: the branch of `cpin` for a string that
-- is too long is never taken.
pub wait_cpin-parse_response :
    (line : Bytes) {pw : Bytes}
    → parse_response line ≡ ok (Response.cpin pw)
    → wait_cpin (Response.cpin pw) ≡ some (ok pw)
wait_cpin-parse_response line {pw} e = fits_eight pw (rw e at (parse_response-Ensures line))
