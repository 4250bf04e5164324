-- ===== src/Transport/Calls.antt =====
-- subsys/greybus/greybus_transport.c: a list of driver calls sends nothing and frees nothing.
use greybus_zephyr.Base.{◌≡◌, refl, ap, List, [], ◌∷◌, ◌++◌, map}
use greybus_zephyr.Transport.{Effects, device}
use greybus_zephyr.Transport.Laws.{sends, request_frees, calls, OnlyCalls}

module _ {D : Type 0} where
  pub device-OnlyCalls : (cs : List D) → OnlyCalls (map device cs)
  device-OnlyCalls [] = tt
  device-OnlyCalls (c ∷ cs) = device-OnlyCalls cs

  pub calls-device : (cs : List D) → calls (map device cs) ≡ cs
  calls-device [] = refl
  calls-device (c ∷ cs) = ap (◌∷◌ c) (calls-device cs)

  pub sends-device : (cs : List D) (es : Effects D) → sends (map device cs ++ es) ≡ sends es
  sends-device [] es = refl
  sends-device (c ∷ cs) es = sends-device cs es

  pub request_frees-device :
      (cs : List D) (es : Effects D) → request_frees (map device cs ++ es) ≡ request_frees es
  request_frees-device [] es = refl
  request_frees-device (c ∷ cs) es = request_frees-device cs es
