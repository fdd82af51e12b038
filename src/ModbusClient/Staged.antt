-- ===== src/ModbusClient/Staged.antt =====
-- modbus_client.py: _write_mode_registers, with the registers that an interrupted command may have
-- left staged on the unit.
pub mod Covered
use meltem_ha.Device.{ModeField, ModeField-discrete}
use meltem_ha.ModbusClient.Backoff.{ReadBackoff, clear_slave}
use meltem_ha.Prelude.{
  Bool, List, Option, [], any, decb, false, if◌then◌else◌, map, none, some, true, ℕ, ◌&&◌, ◌++◌,
  ◌∷◌,
}
use meltem_ha.Prelude.Assoc.{insert, lookup, remove}
use native.Mathlib.Decide.{ℕ_discrete}

-- What a register write or the commit comes to: the unit accepts it, refuses it with an exception
-- response, or no response arrives (a timeout, a lost link, a cancelled command). Whether the
-- unit got a write without a response is unknown to the client.
pub data WriteAnswer : Type 0 where
  taken : WriteAnswer
  refused : WriteAnswer
  no_response : Bool → WriteAnswer

-- The writes of a command, each with the answer that it gets if it is sent.
abbrev pub Script : Type 0
Script = List (ModeField × WriteAnswer)

-- self._staged_mode_registers: the registers that an interrupted command wrote to a unit without
-- its commit
abbrev pub Marks : Type 0
Marks = List (ℕ × List ModeField)

unfoldable pub has_field : ModeField → List ModeField → Bool
has_field name names = any (λ n. decb (ModeField-discrete name n)) names

-- The registers that count as written, and whether every write was accepted.
unfoldable pub write_all : Script → List ModeField × Bool
write_all [] = ([], true)
write_all ((name, WriteAnswer.taken) ∷ script) =
    let rest = write_all script in (name ∷ rest.0, rest.1)
write_all ((name, WriteAnswer.refused) ∷ script) = ([], false)
write_all ((name, WriteAnswer.no_response _) ∷ script) = (name ∷ [], false)

-- self._staged_mode_registers.get(room.slave, frozenset())
unfoldable pub names_or_empty : Option (List ModeField) → List ModeField
names_or_empty none = []
names_or_empty (some names) = names

unfoldable pub staged_of : ℕ → Marks → List ModeField
staged_of slave marks = names_or_empty (lookup ℕ_discrete slave marks)

-- `if written: self._staged_mode_registers[room.slave] = staged | frozenset(written)`
unfoldable pub mark_staged : ℕ → List ModeField → Marks → Marks
mark_staged slave [] marks = marks
mark_staged slave (name ∷ names) marks =
    insert ℕ_discrete slave (staged_of slave marks ++ name ∷ names) marks

abbrev pub is_accepted : WriteAnswer → Bool
is_accepted WriteAnswer.taken = true
is_accepted _ = false

-- The marks after a command, and whether it returns
unfoldable pub write_mode_registers : ℕ → Script → WriteAnswer → Marks → Marks × Bool
write_mode_registers slave script apply marks =
    let written = write_all script in
    if written.1 && is_accepted apply
    then (remove ℕ_discrete slave marks, true)
    else (mark_staged slave written.0 marks, false)

-- The marks and the backoff of the mode status after a command: the readback after a command that
-- returned tries a refused status again.
unfoldable pub mode_registers_written :
    ℕ → Script → WriteAnswer → Marks → ReadBackoff → Marks × ReadBackoff × Bool
mode_registers_written slave script apply marks mode_status =
    let ended = write_mode_registers slave script apply marks in
    (ended.0, (if ended.1 then clear_slave slave mode_status else mode_status), ended.1)

-- The registers of the warning: left over by an interrupted command, and not written again.
unfoldable pub left_over : List ModeField → Script → List ModeField
left_over [] script = []
left_over (name ∷ staged) script =
    let rest = left_over staged script in
    if has_field name (map (λ w. w.0) script) then rest else name ∷ rest
