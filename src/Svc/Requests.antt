-- ===== src/Svc/Requests.antt =====
-- svc.c: the requests that change nothing, and what they are to be answered with.
use greybus_zephyr.Base.{
  ℕ, ◌≤◌, ◌≡◌, ◌≢◌, refl, inl, inr, ◌⊎◌, Bool, if◌then◌else◌, ◌&&◌, Option, none, some, [], ◌∷◌,
  Bytes, length, get_or, ◌==◌,
}
use greybus_zephyr.Svc.{
  Operation, acknowledge, dme_peer_get, dme_peer_set, set_pwrm, rail_count, vsys, refclk, unipro,
  activate, resume, operation_of,
}

-- Both modes of a set_pwrm request are hibernation, which is at the bytes 2 and 7.
abbrev pub hibernates : Bytes → Bool
hibernates payload = get_or payload 2 0 == 0x11 && get_or payload 7 0 == 0x11

-- The payload that each of the handler's cases is to answer with.
abbrev pub case_answer : Operation → Bytes → Option Bytes
case_answer acknowledge request = some []
case_answer dme_peer_get request = some (0 ∷ 0 ∷ 0x26 ∷ 0x01 ∷ 0 ∷ 0 ∷ [])
case_answer dme_peer_set request = some (0 ∷ 0 ∷ [])
case_answer set_pwrm request = some ((if hibernates request then 0x00 else 0x01) ∷ [])
case_answer rail_count request = some (0 ∷ [])
case_answer vsys request = some (0 ∷ [])
case_answer refclk request = some (0 ∷ [])
case_answer unipro request = some (0 ∷ [])
case_answer activate request = some (0 ∷ 3 ∷ [])
case_answer resume request = some (0 ∷ [])
case_answer _ request = none

-- The protocol's requests that change nothing in this SVC.
pub data Request : Type 0 where
  intf_device_id route_create route_destroy ping peer_get peer_set intf_set_pwrm : Request
  pwrmon_rail_count_get vsys_enable vsys_disable refclk_enable refclk_disable : Request
  unipro_enable unipro_disable intf_activate intf_resume : Request

-- Their types in the protocol.
abbrev pub type_of : Request → ℕ
type_of intf_device_id = 0x03
type_of peer_get = 0x09
type_of peer_set = 0x0a
type_of route_create = 0x0b
type_of route_destroy = 0x0c
type_of intf_set_pwrm = 0x10
type_of ping = 0x13
type_of pwrmon_rail_count_get = 0x14
type_of vsys_enable = 0x21
type_of vsys_disable = 0x22
type_of refclk_enable = 0x23
type_of refclk_disable = 0x24
type_of unipro_enable = 0x25
type_of unipro_disable = 0x26
type_of intf_activate = 0x27
type_of intf_resume = 0x28

-- The payload that each is to be answered with. Nothing is asked for that the SVC would have to look up: a
-- peer's attribute is the number 0x0126, no power rail is measured, and an interface is activated as a
-- Greybus one (0x03).
abbrev pub answer_of : Request → Bytes → Bytes
answer_of intf_device_id request = []
answer_of route_create request = []
answer_of route_destroy request = []
answer_of ping request = []
answer_of peer_get request = 0 ∷ 0 ∷ 0x26 ∷ 0x01 ∷ 0 ∷ 0 ∷ []
answer_of peer_set request = 0 ∷ 0 ∷ []
answer_of intf_set_pwrm request = (if hibernates request then 0x00 else 0x01) ∷ []
answer_of pwrmon_rail_count_get request = 0 ∷ []
answer_of vsys_enable request = 0 ∷ []
answer_of vsys_disable request = 0 ∷ []
answer_of refclk_enable request = 0 ∷ []
answer_of refclk_disable request = 0 ∷ []
answer_of unipro_enable request = 0 ∷ []
answer_of unipro_disable request = 0 ∷ []
answer_of intf_activate request = 0 ∷ 3 ∷ []
answer_of intf_resume request = 0 ∷ []

-- A set_pwrm request has the bytes that the handler reads.
abbrev pub IsLong : Request → Bytes → Type 0
IsLong intf_set_pwrm request = 8 ≤ length request
IsLong _ request = Unit

-- The case of the handler's switch for each request.
abbrev pub case_of : Request → Operation
case_of intf_device_id = acknowledge
case_of route_create = acknowledge
case_of route_destroy = acknowledge
case_of ping = acknowledge
case_of peer_get = dme_peer_get
case_of peer_set = dme_peer_set
case_of intf_set_pwrm = set_pwrm
case_of pwrmon_rail_count_get = rail_count
case_of vsys_enable = vsys
case_of vsys_disable = vsys
case_of refclk_enable = refclk
case_of refclk_disable = refclk
case_of unipro_enable = unipro
case_of unipro_disable = unipro
case_of intf_activate = activate
case_of intf_resume = resume

pub case_of_lem : (rq : Request) → operation_of (type_of rq) ≡ some (case_of rq)
unfolding operation_of
case_of_lem intf_device_id = refl
case_of_lem route_create = refl
case_of_lem route_destroy = refl
case_of_lem ping = refl
case_of_lem peer_get = refl
case_of_lem peer_set = refl
case_of_lem intf_set_pwrm = refl
case_of_lem pwrmon_rail_count_get = refl
case_of_lem vsys_enable = refl
case_of_lem vsys_disable = refl
case_of_lem refclk_enable = refl
case_of_lem refclk_disable = refl
case_of_lem unipro_enable = refl
case_of_lem unipro_disable = refl
case_of_lem intf_activate = refl
case_of_lem intf_resume = refl

pub case_answer_lem :
    (rq : Request) (payload : Bytes)
    → case_answer (case_of rq) payload ≡ some (answer_of rq payload)
case_answer_lem intf_device_id payload = refl
case_answer_lem route_create payload = refl
case_answer_lem route_destroy payload = refl
case_answer_lem ping payload = refl
case_answer_lem peer_get payload = refl
case_answer_lem peer_set payload = refl
case_answer_lem intf_set_pwrm payload = refl
case_answer_lem pwrmon_rail_count_get payload = refl
case_answer_lem vsys_enable payload = refl
case_answer_lem vsys_disable payload = refl
case_answer_lem refclk_enable payload = refl
case_answer_lem refclk_disable payload = refl
case_answer_lem unipro_enable payload = refl
case_answer_lem unipro_disable payload = refl
case_answer_lem intf_activate payload = refl
case_answer_lem intf_resume payload = refl

pub long_enough :
    (rq : Request) (payload : Bytes)
    → IsLong rq payload
    → 8 ≤ length payload ⊎ (case_of rq ≢ set_pwrm)
long_enough intf_device_id payload h = inr (λ e. cc e)
long_enough route_create payload h = inr (λ e. cc e)
long_enough route_destroy payload h = inr (λ e. cc e)
long_enough ping payload h = inr (λ e. cc e)
long_enough peer_get payload h = inr (λ e. cc e)
long_enough peer_set payload h = inr (λ e. cc e)
long_enough intf_set_pwrm payload h = inl h
long_enough pwrmon_rail_count_get payload h = inr (λ e. cc e)
long_enough vsys_enable payload h = inr (λ e. cc e)
long_enough vsys_disable payload h = inr (λ e. cc e)
long_enough refclk_enable payload h = inr (λ e. cc e)
long_enough refclk_disable payload h = inr (λ e. cc e)
long_enough unipro_enable payload h = inr (λ e. cc e)
long_enough unipro_disable payload h = inr (λ e. cc e)
long_enough intf_activate payload h = inr (λ e. cc e)
long_enough intf_resume payload h = inr (λ e. cc e)
