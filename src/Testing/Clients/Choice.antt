-- ===== src/Testing/Clients/Choice.antt =====
-- The mode that the options of src/main.rs choose.
use speed_cli.Base.{◌≡◌, ◌↔◌, ◌++◌, Bool, true, false, Option, none, some, List, [], ◌∷◌, arith}
use speed_cli.Testing.Config.{ClientMode, tcp, udp, http1, h2c, http2, http3}
use speed_cli.Testing.Clients.{ClientOptions, client_mode}

abbrev pub named_if : Bool → ClientMode → List ClientMode
named_if true mode = mode ∷ []
named_if false mode = []

abbrev pub listed : Option ClientMode → List ClientMode
listed none = []
listed (some mode) = mode ∷ []

-- The protocols that the options name.
abbrev pub named_modes : ClientOptions → List ClientMode
named_modes o =
    listed o.mode
    ++ (named_if o.use_tcp tcp
        ++ (named_if o.use_udp udp
            ++ (named_if o.use_http1 http1
                ++ (named_if o.use_http2 http2
                    ++ (named_if o.use_h2c h2c ++ named_if o.use_http3 http3)))))

-- A mode is chosen exactly if it is the only protocol that the options name.
pub client_mode_iff :
    (o : ClientOptions) (mode : ClientMode)
    → (client_mode o ≡ some mode) ↔ (named_modes o ≡ mode ∷ [])
unfolding client_mode
client_mode_iff o mode = ground (arith, o.mode)
