-- ===== src/Examples/Entities.antt =====
-- Requests to the bridge's own resources.
use hanfun_io_tivity.Prelude.{
  ◌≡◌, refl, true, false, [], ◌∷◌, ◌++◌, Option, some, none, ◌>>=◌, arith,
}
use hanfun_io_tivity.Prelude.Bytes.{Bytes, codes, bytes_eq}
use hanfun_io_tivity.Prelude.Dict.{lookup, insert}
use hanfun_io_tivity.HanClient.Client.Registration.{registration_message}
use hanfun_io_tivity.HanClient.Message.{unpack}
use hanfun_io_tivity.Resource.Query.{Served, is_valid_request}
use hanfun_io_tivity.Entity.{
  bool, Rep, Calls, get_request, post_request, responded, eh_ok, create_payload,
}
use hanfun_io_tivity.Entity.SecureMode.{SecureModeResource}
use hanfun_io_tivity.Entity.SecureMode
use hanfun_io_tivity.Entity.SecureMode.Laws.{get-post}
use hanfun_io_tivity.Entity.Registration.{RegistrationResource}
use hanfun_io_tivity.Entity.Registration
use hanfun_io_tivity.Entity.Registration.Laws.{
  opened, Ends, entity_handler_cb-Ends, entity_handler_cb-unpack,
}
use hanfun_io_tivity.Examples.Bridge.{stack}

-- A resource with the interfaces of both.
abbrev own : Served
own = record {
  types = some (some (codes "oic.r.securemode") ∷ []);
  interfaces = some (some (codes "oic.if.baseline") ∷ some (codes "oic.if.rw") ∷ []);
}

abbrev working : Calls
working = record { create = true; calloc = λ n. true; set = λ name. true }

valid : (is_valid_request stack own none ≡ some true)
unfolding is_valid_request lookup insert bytes_eq
valid = refl

made : create_payload stack working own none ≡ some []
unfolding create_payload
made = refl

get-post_example :
    (SecureMode.entity_handler_cb stack working
        (post_request own none true)
        (record { secure_mode = false })
      >>= λ h. SecureMode.entity_handler_cb stack working (get_request own none) h.state)
    ≡ some (record {
      state = record { secure_mode = true };
      result = eh_ok;
      effects = responded (some (insert (codes "secureMode") (bool true) [])) ∷ [];
    })
get-post_example =
    get-post stack working own none none (record { secure_mode = false }) true [] valid valid made
      refl

abbrev shut : RegistrationResource
shut = record {
  is_open = false;
  han_client = record {
    initialized = true;
    bound = true;
    receiving = true;
    has_table_cb = true;
    sent = [];
  };
}

entity_handler_cb-Ends_example :
    Ends shut (Registration.entity_handler_cb stack working (post_request own none true) shut)
entity_handler_cb-Ends_example =
    entity_handler_cb-Ends stack working (post_request own none true) shut true valid

entity_handler_cb-unpack_example :
    (d : Bytes) × (payload : Option Rep) × (Registration.entity_handler_cb stack working
        (post_request own none true)
        shut
      ≡ some (opened d true payload shut))
    × (unpack (d ++ 0 ∷ []) 64 ≡ some (registration_message true))
entity_handler_cb-unpack_example =
    entity_handler_cb-unpack stack working own none true shut [] 64 valid (omega arith)
