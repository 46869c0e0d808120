-- ===== src/Ws/Tests.antt =====
-- The socket's theorems at concrete states.
use hr_profi_uz.Common.{String, ◌≡◌, false, some, none, ◌∷◌, [], ◌+◌, refl, arith}
use hr_profi_uz.Ws.Lifetime.{
  IsClosed, run, closes, timer_fires, disconnect_is_final, late_close_leaks_socket,
}
use hr_profi_uz.Ws.Machine.{connect, initial, AdminWs, on_timer, on_close, disconnect}

abbrev endpoint : String → String
endpoint token = token

abbrev online : AdminWs
online = connect endpoint "t1" false initial

disconnect_is_final_example :
    IsClosed (run (closes 0 ∷ timer_fires false ∷ []) (disconnect online))
    × ((run (closes 0 ∷ timer_fires false ∷ []) (disconnect online)).created ≡ online.created)
disconnect_is_final_example = disconnect_is_final online (closes 0 ∷ timer_fires false ∷ [])

online_fields :
    (online.explicitly_closed ≡ false)
    × (online.url ≡ some "t1")
    × (online.socket ≡ some 0)
    × (online.current_token ≡ some "t1")
    × (online.connected ≡ 0 ∷ [])
    × (online.created ≡ 1)
unfolding connect initial
online_fields = (refl, refl, refl, refl, refl, refl)

late_close_leaks_socket_example :
    let t = on_close 0 (connect endpoint "t2" false online) in
    let u = on_timer false t in
    (t.socket ≡ none)
    × (t.connected ≡ online.created ∷ [])
    × (u.connected ≡ (online.created + 1) ∷ online.created ∷ [])
late_close_leaks_socket_example =
    late_close_leaks_socket endpoint online 0 "t1" "t2" online_fields.2 online_fields.3 refl
      online_fields.4 (omega (arith, online_fields.5))
