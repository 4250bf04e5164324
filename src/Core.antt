-- ===== src/Core.antt =====
-- subsys/greybus/greybus-core.c: results of operations, the receive queue, the drivers of cports.
pub mod Cports
pub mod Worker
mod Tests
use greybus_zephyr.Base.{
  ℕ, suc, ◌+◌, ◌≡◌, ◌↔◌, arith, Bool, ◌||◌, ◌==◌, if◌then◌else◌, ℤ, pos, negsuc, eintr, enxio,
  enomem, ebusy, enodev, einval, eproto, enosys, etimedout, eoverflow,
}
use greybus_zephyr.Messages.{
  gb_op_success, gb_op_interrupted, gb_op_timeout, gb_op_no_memory, gb_op_protocol_bad,
  gb_op_overflow, gb_op_invalid, gb_op_retry, gb_op_nonexistent, gb_op_unknown_error,
}

-- The labels of the switch come in pairs `E`, `-E`: it goes by the magnitude.
abbrev pub magnitude : ℤ → ℕ
magnitude (pos n) = n
magnitude (negsuc n) = suc n

pub gb_errno_to_op_result : ℤ → ℕ
gb_errno_to_op_result err =
    let e = magnitude err in
    if e == 0
    then gb_op_success
    else if e == enomem
    then gb_op_no_memory
    else if e == eintr
    then gb_op_interrupted
    else if e == etimedout
    then gb_op_timeout
    else if e == eproto || e == enosys
    then gb_op_protocol_bad
    else if e == einval
    then gb_op_invalid
    else if e == eoverflow
    then gb_op_overflow
    else if e == enodev || e == enxio
    then gb_op_nonexistent
    else if e == ebusy
    then gb_op_retry
    else gb_op_unknown_error

-- An int result is reported as success exactly if it is 0.
gb_errno_to_op_result-eq-success :
    (err : ℤ) → (gb_errno_to_op_result err ≡ gb_op_success) ↔ (err ≡ pos 0)
unfolding gb_errno_to_op_result
gb_errno_to_op_result-eq-success err = (ground arith, ground arith)
