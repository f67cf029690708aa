-- ===== src/AppServer/Register/Stored.antt =====
-- What a registration by src/fedservice/appserver/oauth2/registration.py leaves in the server.
use fedservice.AppServer.Register.{
  client_registration_setup, error_response, first_info, ignored, caught, Answered,
  client_information, done, Provider, do_client_registration, step2_process_request,
  register_client, Setting,
}
use fedservice.Prelude.{
  String, ◌==◌, if◌then◌else◌, ◌≡◌, refl, inl, inr, Bool, some, List, arith, Result, ok, raised,
  Result-cases, filter,
}
use fedservice.Prelude.Dict.{Dict, lookup, insert, mem, lookup-insert}
use fedservice.Value.{Value}

module _ (setting : Setting) (split : Value → Value) where
  -- Where `register_client`, which is called once an identifier is chosen for a request whose message and
  -- claims have passed, answers with an error response, the client is in the server all the same: it is the
  -- check of the redirect URIs and other claims that has refused it, and its identifier leads to the first
  -- information on it, with its secret where one is set, while all other clients are as before.
  pub register_client-error :
      (request : Dict Value) (new_id set_secret : Bool) (client_id error id : String)
      (self : Provider)
      → (register_client setting split request new_id set_secret client_id self).1
        ≡ ok (error_response error)
      → (client_information setting split self.keyjar ignored request
            (first_info setting new_id set_secret client_id)
          ≡ ok (error_response error))
        × (lookup id (register_client setting split request new_id set_secret client_id self).0.cdb
            ≡ (if id == client_id
                then some (first_info setting new_id set_secret client_id)
                else lookup id self.cdb))
  unfolding register_client do_client_registration
  register_client-error request new_id set_secret client_id error id self run =
      let first = first_info setting new_id set_secret client_id in
      let stored = lookup-insert client_id client_id first self.cdb in
      elim (Result-cases (client_information setting split self.keyjar ignored request first)) [
        | inl (error_response refused, found) ↦ (
          ground (arith, run, found, stored),
          ground (arith, run, found, stored, lookup-insert id client_id first self.cdb),
        )
        | inr (e, fails) ↦ ground (arith, run, fails, stored)
        | inl (done cinfo, found) ↦
            elim (Result-cases
              (setting.comb_uri (filter (λ entry. mem entry.0 setting.response_param) cinfo))) [
                | inl (args, combined) ↦ ground (arith, run, found, combined, stored)
                | inr (e, fails) ↦ ground (arith, run, found, fails, stored)
              ]
      ]

  -- A registration that succeeds has stored, under the identifier of the client, the information that the
  -- checks of the request have given, and answers with those of its claims that the response has.
  pub register_client-done :
      (request : Dict Value) (new_id set_secret : Bool) (client_id : String) (self : Provider)
      (args : Dict Value)
      → (register_client setting split request new_id set_secret client_id self).1 ≡ ok (done args)
      → (cinfo : Dict Value) × (client_information setting split self.keyjar ignored request
            (first_info setting new_id set_secret client_id)
          ≡ ok (done cinfo))
        × (lookup client_id
              (register_client setting split request new_id set_secret client_id self).0.cdb
            ≡ some cinfo)
        × (setting.comb_uri (filter (λ entry. mem entry.0 setting.response_param) cinfo) ≡ ok args)
  unfolding register_client do_client_registration
  register_client-done request new_id set_secret client_id self args run =
      let first = first_info setting new_id set_secret client_id in
      elim (Result-cases (client_information setting split self.keyjar ignored request first)) [
        | inl (error_response error, found) ↦
            ground (arith, run, found, lookup-insert client_id client_id first self.cdb)
        | inr (e, fails) ↦
            ground (arith, run, fails, lookup-insert client_id client_id first self.cdb)
        | inl (done cinfo, found) ↦ (
          cinfo,
          found,
          ground (
            arith,
            run,
            found,
            lookup-insert client_id client_id first self.cdb,
            lookup-insert client_id client_id cinfo (insert client_id first self.cdb),
          ),
          ground (arith, run, found, lookup-insert client_id client_id first self.cdb),
        )
      ]

  -- Whatever the request, `step2_process_request` answers: with an error response, or with the claims
  -- of the client.
  pub step2_process_request-answers :
      (request : Dict Value) (new_id set_secret : Bool) (reserved : List String) (self : Provider)
      → (answer : Answered (Dict Value)) × ((step2_process_request setting split request new_id
            set_secret reserved self).1
          ≡ ok answer)
  unfolding step2_process_request
  step2_process_request-answers request new_id set_secret reserved self =
      caught-answers
        (client_registration_setup setting split request new_id set_secret reserved self)
    where
      caught-answers :
          (at : Provider × Result (Answered (Dict Value)))
          → (answer : Answered (Dict Value)) × ((caught setting at).1 ≡ ok answer)
      caught-answers (at, raised e) = (error_response "invalid_configuration_request", refl)
      caught-answers (at, ok answer) = (answer, refl)
