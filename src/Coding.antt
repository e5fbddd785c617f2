-- ===== src/Coding.antt =====
-- src/protocol/frame/coding.rs: opcodes and close codes, and their numbers on the wire.
-- A byte is a number below 256, and a close code one below 65536. `none` stands for the panic on
-- an opcode out of range.
pub mod RoundTrip
use tungstenite_rs.Prelude.{
  ℕ, Bool, true, false, Option, none, some, leb, ltb, ◌==◌, ◌&&◌, if◌then◌else◌,
}

pub data Data : Type 0 where
  continue text binary : Data
  reserved : ℕ → Data

pub data Control : Type 0 where
  close ping pong : Control
  reserved : ℕ → Control

pub data OpCode : Type 0 where
  data_op : Data → OpCode
  control_op : Control → OpCode

unfoldable pub data_to_u8 : Data → ℕ
data_to_u8 continue = 0
data_to_u8 text = 1
data_to_u8 binary = 2
data_to_u8 (Data.reserved i) = i

unfoldable pub control_to_u8 : Control → ℕ
control_to_u8 close = 8
control_to_u8 ping = 9
control_to_u8 pong = 10
control_to_u8 (Control.reserved i) = i

unfoldable pub opcode_to_u8 : OpCode → ℕ
unfolding data_to_u8 control_to_u8
opcode_to_u8 (data_op d) = data_to_u8 d
opcode_to_u8 (control_op c) = control_to_u8 c

unfoldable pub opcode_from_u8 : ℕ → Option OpCode
opcode_from_u8 byte =
    if byte == 0
    then some (data_op continue)
    else if byte == 1
    then some (data_op text)
    else if byte == 2
    then some (data_op binary)
    else if leb 3 byte && leb byte 7
    then some (data_op (Data.reserved byte))
    else if byte == 8
    then some (control_op close)
    else if byte == 9
    then some (control_op ping)
    else if byte == 10
    then some (control_op pong)
    else if leb 11 byte && leb byte 15
    then some (control_op (Control.reserved byte))
    else none

pub data CloseCode : Type 0 where
  normal away protocol unsupported status abnormal invalid policy size extension : CloseCode
  error restart again tls : CloseCode
  reserved iana library bad : ℕ → CloseCode

unfoldable pub is_allowed : CloseCode → Bool
is_allowed (CloseCode.bad code) = false
is_allowed (CloseCode.reserved code) = false
is_allowed status = false
is_allowed abnormal = false
is_allowed tls = false
is_allowed _ = true

unfoldable pub close_code_to_u16 : CloseCode → ℕ
close_code_to_u16 normal = 1000
close_code_to_u16 away = 1001
close_code_to_u16 protocol = 1002
close_code_to_u16 unsupported = 1003
close_code_to_u16 status = 1005
close_code_to_u16 abnormal = 1006
close_code_to_u16 invalid = 1007
close_code_to_u16 policy = 1008
close_code_to_u16 size = 1009
close_code_to_u16 extension = 1010
close_code_to_u16 error = 1011
close_code_to_u16 restart = 1012
close_code_to_u16 again = 1013
close_code_to_u16 tls = 1015
close_code_to_u16 (CloseCode.reserved code) = code
close_code_to_u16 (CloseCode.iana code) = code
close_code_to_u16 (CloseCode.library code) = code
close_code_to_u16 (CloseCode.bad code) = code

unfoldable pub close_code_from_u16 : ℕ → CloseCode
close_code_from_u16 code =
    if code == 1000
    then normal
    else if code == 1001
    then away
    else if code == 1002
    then protocol
    else if code == 1003
    then unsupported
    else if code == 1005
    then status
    else if code == 1006
    then abnormal
    else if code == 1007
    then invalid
    else if code == 1008
    then policy
    else if code == 1009
    then size
    else if code == 1010
    then extension
    else if code == 1011
    then error
    else if code == 1012
    then restart
    else if code == 1013
    then again
    else if code == 1015
    then tls
    else if leb 1 code && leb code 999
    then CloseCode.bad code
    else if leb 1016 code && leb code 2999
    then CloseCode.reserved code
    else if leb 3000 code && leb code 3999
    then CloseCode.iana code
    else if leb 4000 code && leb code 4999
    then CloseCode.library code
    else CloseCode.bad code
