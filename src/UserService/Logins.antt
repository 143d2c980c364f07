-- ===== src/UserService/Logins.antt =====
-- What the Login of examples/server/user_server.cc answers, on every branch.
use xrpc.Base.{
  ℕ, ◌≡◌, refl, Bool, true, false, not, ◌&&◌, ◌||◌, Option, Bytes, Bool-cases, inl, inr,
  if◌then◌else◌,
}
use xrpc.Base.Dict.{Dict}
use xrpc.Controller.{Controller, set_failed, run_closure}
use xrpc.UserService.{
  LoginRequest, LoginResponse, UserWorld, validate, is_empty, invalid_input, invalid_credentials,
  empty_input, token_of, local_login, login,
}

-- The credentials are not empty, and the map holds them.
abbrev pub accepts : Dict Bytes → LoginRequest → Bool
accepts users request =
    not (is_empty request.username || is_empty request.password)
    && validate request.username request.password users

-- Why the others are turned down: the text for the controller and the one for the response.
abbrev pub reason_of : LoginRequest → Bytes × Bytes
reason_of request =
    if is_empty request.username || is_empty request.password
    then (invalid_input, empty_input)
    else (invalid_credentials, invalid_credentials)

module _ {R : Type 0} (rand : R → R × ℕ) where
  abbrev pub granted_by : UserWorld R → LoginRequest → LoginResponse → LoginResponse
  granted_by w request response = record response {
    success = true;
    token = token_of request.username (rand w.draws).1;
  }

  abbrev pub refused_by : LoginRequest → LoginResponse → LoginResponse
  refused_by request response = record response {
    success = false;
    error_message = (reason_of request).1;
  }

  -- Login grants exactly the credentials that are not empty and stored: it answers with a token of the
  -- user and of the number drawn. Any other request fails the controller and the response with a text, and
  -- draws nothing. The users stay, and the closure runs once if there is one.
  pub login-accepts :
      (w : UserWorld R) (c : Controller) (request : LoginRequest) (response : LoginResponse)
      (done : Option ℕ)
      → login rand w c request response done ≡ (
          if accepts w.users request
          then (
            record w { draws = (rand w.draws).0 },
            c,
            granted_by w request response,
            run_closure done,
          )
          else (
            w,
            set_failed (reason_of request).0 c,
            refused_by request response,
            run_closure done,
          ))
  unfolding login local_login
  login-accepts w c request response closure =
      elim (Bool-cases (is_empty request.username || is_empty request.password)) [
        | inl blank ↦ rw blank refl
        | inr full ↦
            rw full (elim (Bool-cases (validate request.username request.password w.users)) [
              | inl stored ↦ rw stored refl
              | inr unknown ↦ rw unknown refl
            ])
      ]
