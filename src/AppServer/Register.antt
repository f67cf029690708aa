-- ===== src/AppServer/Register.antt =====
-- The registration of a client: `do_client_registration`, `client_registration_setup` and
-- `step2_process_request` of src/fedservice/appserver/oauth2/registration.py.
pub mod Stored
use fedservice.Verifier.{KeyJar}
use fedservice.AppServer.Provider.{KeyImport, import_keys, Provider, get_true, Serve}
use fedservice.AppServer.Request.{filter_client_request, Uris, verify_redirect_uris, Capabilities}
use fedservice.Prelude.{
  capabilities_mismatch, invalid_redirect_uri, ◌+◌, String, Bool, not, ◌&&◌, Option, none, some,
  List, [], ◌∷◌, map, if◌then◌else◌, ◌==◌, Result, ok, raised, ◌>>=◌, ◌>>◌, require, is_empty,
  filter, ◌>>>◌, lift, key_error, type_error, value_error,
}
use fedservice.Prelude.Dict.{Dict, lookup, has_key, insert, erase, keys, mem}
use fedservice.Prelude.Int.{ℤ, pos, ◌+ℤ◌}
use fedservice.Value.{
  nil, object, contained_in, elements, str, of_elements, cons, num, atom, array, Value, truthy,
  text,
}

-- The context and the settings of the endpoint. `verify_request` is `Message.verify` of the request: nothing, or
-- the second argument of the exception, if there is one. `rm_blanks` is its `rm_blanks`, `verify_url` and `comb_uri` are those of idpyoidc, `signing_keys`
-- is whether the key jar has signing keys for an algorithm (or needs none), `secret` makes the client
-- secret, `response_param` are the claims of the response's class.
pub record Setting : Type 0 where
  pub now : ℤ
  pub capabilities : Capabilities
  pub uris : Uris
  pub key_import : KeyImport
  pub verify_request : Dict Value → Option (Option String)
  pub rm_blanks : Dict Value → Dict Value
  pub verify_url : Value → Value → Result Bool
  pub comb_uri : Dict Value → Result (Dict Value)
  pub signing_keys : KeyJar → Value → Bool
  pub new_client_id : List String → String
  pub salt : String
  pub secret : String → String
  pub client_secret_expires : Bool
  pub client_secret_expires_in : ℤ
  pub response_param : List String

-- A `ResponseMessage` with an error, or the value.
pub data Answered {ℓ} (A : Type ℓ) : Type ℓ where
  error_response : String → Answered A
  done : A → Answered A

-- A step that may end with an error response
abbrev pub and_then {ℓ κ} :
    {A : Type ℓ} {B : Type κ}
    → Result (Answered A)
    → (A → Result (Answered B))
    → Result (Answered B)
and_then (raised e) next = raised e
and_then (ok (error_response error)) next = ok (error_response error)
and_then (ok (done a)) next = next a

-- `if item in request:`
abbrev pub if_given :
    String
    → Dict Value
    → Dict Value
    → (Value → Result (Answered (Dict Value)))
    → Result (Answered (Dict Value))
if_given item request cinfo next = elim (lookup item request) [
  | none ↦ ok (done cinfo)
  | some val ↦ next val
]

-- `_cinfo[key] = val` for what is not in `ignore`
abbrev pub copy_claims : List String → Dict Value → Dict Value → Dict Value
copy_claims ignore cinfo [] = cinfo
copy_claims ignore cinfo ((key, val) ∷ request) =
    copy_claims ignore (if mem key ignore then cinfo else insert key val cinfo) request

abbrev pair_value : Value × Value → Value
pair_value (base, query) = array (cons base (cons query nil))

abbrev pub ignored : List String
ignored = "redirect_uris" ∷ "policy_uri" ∷ "logo_uri" ∷ "tos_uri" ∷ []

module _ (setting : Setting) where
  -- `client_secret_expiration_time`
  abbrev pub client_secret_expiration_time : ℤ
  client_secret_expiration_time =
      if setting.client_secret_expires
      then setting.now +ℤ setting.client_secret_expires_in
      else pos 0

  -- `add_client_secret`
  abbrev pub add_client_secret : Dict Value → String → Dict Value
  add_client_secret cinfo client_id =
      let with_secret = insert "client_secret" (text (setting.secret client_id)) cinfo in
      let expires = atom (num client_secret_expiration_time) in
      if truthy expires then insert "client_secret_expires_at" expires with_secret else with_secret

  -- The parts of `do_client_registration` in the order of the source, each on the information so far
  abbrev pub check_logout : Dict Value → Dict Value → Result (Answered (Dict Value))
  check_logout request cinfo = elim (get_true "post_logout_redirect_uri" request) [
    | none ↦ ok (done cinfo)
    | some uri ↦ setting.uris.urlparse uri >>= λ p.
        if p.fragment == ""
        then (setting.uris.split_uri uri >>= λ parts.
            ok (done (insert "post_logout_redirect_uri" (pair_value parts) cinfo)))
        else ok (error_response "invalid_configuration_parameter")
  ]

  abbrev pub check_redirects : Dict Value → Dict Value → Result (Answered (Dict Value))
  check_redirects request cinfo = if_given "redirect_uris" request cinfo λ val.
      elim (verify_redirect_uris setting.uris request) [
        | ok ruri ↦
            ok (done (insert "redirect_uris" (array (of_elements (map pair_value ruri))) cinfo))
        | raised invalid_redirect_uri ↦ ok (error_response "invalid_redirect_uri")
        | raised e ↦ raised e
      ]

  -- A request URI that goes with a fragment is kept in two parts; `split` is `uri.split("#")`.
  unfoldable pub request_uris : (Value → Value) → List Value → Result (Answered (List Value))
  request_uris split [] = ok (done [])
  request_uris split (uri ∷ rest) = setting.uris.urlparse uri >>= λ p.
      if p.query == ""
      then and_then (request_uris split rest) (λ kept. ok (
          done (
            (if p.fragment == "" then array (cons uri (cons (text "") nil)) else split uri)
            ∷ kept)))
      else ok (error_response "invalid_configuration_parameter")

  abbrev pub check_request_uris :
      (Value → Value) → Dict Value → Dict Value → Result (Answered (Dict Value))
  check_request_uris split request cinfo = if_given "request_uris" request cinfo λ val. elim val [
    | array xs ↦
        and_then (request_uris split (elements xs))
          (λ kept. ok (done (insert "request_uris" (array (of_elements kept)) cinfo)))
    | atom a ↦ raised type_error
    | object fs ↦ raised type_error
  ]

  -- One of `policy_uri`, `logo_uri` and `tos_uri`
  abbrev pub check_page : Dict Value → String → Dict Value → Result (Answered (Dict Value))
  check_page request item cinfo = if_given item request cinfo λ val.
      require (lookup "redirect_uris" cinfo) key_error >>= λ redirect_uris.
      setting.verify_url val redirect_uris >>= λ fits. ok (
        if fits
        then done (insert item val cinfo)
        else error_response "invalid_configuration_parameter")

  abbrev delete : String → Dict Value → Result (Dict Value)
  delete key d = if has_key key d then ok (erase key d) else raised key_error

  -- One of the algorithms that the server signs with: without support or keys it is dropped.
  abbrev pub check_alg : KeyJar → Dict Value → String → Dict Value → Result (Dict Value)
  check_alg keyjar request item cinfo = elim (lookup item request) [
    | none ↦ ok cinfo
    | some alg ↦
        require (lookup item setting.capabilities.register2preferred) key_error >>= λ claim.
        elim (lookup claim setting.capabilities.provider_info) [
          | none ↦ delete item cinfo
          | some support ↦ contained_in alg support >>= λ supported.
              if supported && not (setting.signing_keys keyjar alg)
              then delete item cinfo
              else ok cinfo
        ]
  ]

  -- What `do_client_registration` finds, before the keys of the client are imported
  unfoldable pub client_information :
      (Value → Value)
      → KeyJar
      → List String
      → Dict Value
      → Dict Value
      → Result (Answered (Dict Value))
  unfolding request_uris
  client_information split keyjar ignore request cinfo =
      and_then (check_logout request (copy_claims ignore cinfo request)) (λ cinfo1.
        and_then (check_redirects request cinfo1) (λ cinfo2.
          and_then (check_request_uris split request cinfo2) (λ cinfo3.
            and_then (check_page request "policy_uri" cinfo3) (λ cinfo4.
              and_then (check_page request "logo_uri" cinfo4) (λ cinfo5.
                and_then (check_page request "tos_uri" cinfo5) (λ cinfo6.
                  check_alg keyjar request "id_token_signed_response_alg" cinfo6 >>= λ cinfo7.
                  check_alg keyjar request "userinfo_signed_response_alg" cinfo7 >>= λ cinfo8.
                  ok (done cinfo8)))))))

  -- The keys, where no error was found
  abbrev pub import_found :
      Dict Value → String → Answered (Dict Value) → Serve (Answered (Dict Value))
  import_found request client_id (error_response error) = lift (ok (error_response error))
  import_found request client_id (done cinfo) =
      import_keys setting.key_import request client_id >>> λ imported. lift (ok (done cinfo))

  abbrev pub read_info :
      (Value → Value) → Dict Value → String → List String → Serve (Answered (Dict Value))
  read_info split request client_id ignore self = (
    self,
    require (lookup client_id self.cdb) key_error >>= λ cinfo.
        client_information split self.keyjar ignore request cinfo,
  )

  -- `do_client_registration`
  unfoldable pub do_client_registration :
      (Value → Value) → Dict Value → String → List String → Serve (Answered (Dict Value))
  unfolding client_information
  do_client_registration split request client_id ignore =
      read_info split request client_id ignore >>> λ found. import_found request client_id found

  abbrev pub store_client : String → Dict Value → Serve (Unit {0})
  store_client client_id cinfo self = (record self { cdb = insert client_id cinfo self.cdb }, ok tt)

  -- `KeyJar.add_symmetric` is not followed.
  -- The claims of the response's class, and the client stored
  abbrev pub respond_with : String → Dict Value → Serve (Answered (Dict Value))
  respond_with client_id cinfo =
      lift (setting.comb_uri (filter (λ entry. mem entry.0 setting.response_param) cinfo))
      >>> λ args. store_client client_id cinfo >>> λ stored. lift (ok (done args))

  abbrev pub finish_registration : String → Answered (Dict Value) → Serve (Answered (Dict Value))
  finish_registration client_id (error_response error) = lift (ok (error_response error))
  finish_registration client_id (done cinfo) = respond_with client_id cinfo

  -- The information that is stored before the request is looked at
  abbrev pub first_info : Bool → Bool → String → Dict Value
  first_info new_id set_secret client_id =
      let plain = ("client_id", text client_id) ∷ ("client_salt", text setting.salt) ∷ [] in
      let issued =
        if new_id then insert "client_id_issued_at" (atom (num setting.now)) plain else plain in
      if set_secret then add_client_secret issued client_id else issued

  -- With the identifier of the client known
  unfoldable pub register_client :
      (Value → Value) → Dict Value → Bool → Bool → String → Serve (Answered (Dict Value))
  unfolding do_client_registration
  register_client split request new_id set_secret client_id =
      store_client client_id (first_info new_id set_secret client_id) >>> λ stored.
      do_client_registration split request client_id ignored >>> λ found.
      finish_registration client_id found

  -- The identifier: a new one, or that of the request, and what is left of the request
  abbrev pub choose_id : Bool → List String → Dict Value → Provider → Result (String × Dict Value)
  choose_id new_id reserved request self =
      if new_id
      then ok (
        setting.new_client_id (if is_empty reserved then keys self.cdb else reserved),
        erase "client_id" request,
      )
      else elim (get_true "client_id" request) [
        | some (atom (str client_id)) ↦ ok (client_id, request)
        | some other ↦ raised type_error
        | none ↦ raised value_error
      ]

  abbrev pub chosen_id : Bool → List String → Dict Value → Serve (String × Dict Value)
  chosen_id new_id reserved request self = (self, choose_id new_id reserved request self)

  -- The error for a request that `Message.verify` refuses
  abbrev pub refusal : Option String → String
  refusal none = "invalid_configuration_request"
  refusal (some claim) =
      if claim == "initiate_login_uri"
      then "invalid_client_claims"
      else "invalid_configuration_request"

  -- With the request that is left
  abbrev pub after_filter :
      (Value → Value)
      → Bool
      → Bool
      → List String
      → Result (Dict Value)
      → Serve (Answered (Dict Value))
  after_filter split new_id set_secret reserved (raised capabilities_mismatch) =
      lift (ok (error_response "invalid_request"))
  after_filter split new_id set_secret reserved (raised e) = lift (raised e)
  after_filter split new_id set_secret reserved (ok filtered) =
      chosen_id new_id reserved filtered >>> λ chosen.
      register_client split chosen.1 new_id set_secret chosen.0

  -- `client_registration_setup`
  unfoldable pub client_registration_setup :
      (Value → Value) → Dict Value → Bool → Bool → List String → Serve (Answered (Dict Value))
  unfolding register_client
  client_registration_setup split request new_id set_secret reserved =
      elim (setting.verify_request request) [
        | some claim ↦ lift (ok (error_response (refusal claim)))
        | none ↦
            after_filter split new_id set_secret reserved
              (filter_client_request setting.capabilities (setting.rm_blanks request))
      ]

  -- Any exception becomes an error response.
  abbrev pub caught :
      Provider × Result (Answered (Dict Value)) → Provider × Result (Answered (Dict Value))
  caught (self, raised e) = (self, ok (error_response "invalid_configuration_request"))
  caught (self, ok found) = (self, ok found)

  -- `step2_process_request`, apart from the cookie
  unfoldable pub step2_process_request :
      (Value → Value) → Dict Value → Bool → Bool → List String → Serve (Answered (Dict Value))
  unfolding client_registration_setup
  step2_process_request split request new_id set_secret reserved self =
      caught (client_registration_setup split request new_id set_secret reserved self)
