-- ===== src/Channel/Tests.antt =====
-- The theorems at a kernel whose interest list is an association list.
use reactor_network_library.Prelude.{◌≡◌, refl, true, false, none, List, [], ◌∷◌, lookup, insert}
use reactor_network_library.Channel.{
  Channel, create, updatechannel, enablereading, enablewriting, disablewriting, setepollet,
  handleevents, sethappenevents, readevent, writeevent,
}
use reactor_network_library.Channel.Kernel.Listed.{ctl_list, registered_list, list_documented}
use reactor_network_library.Channel.Flags.{Switches}
use reactor_network_library.Channel.Registration.{
  Call, reads_on, writes_on, writes_off, edge_on, call, run, InStep,
}
use reactor_network_library.Channel.Dispatch.{Report, report_bits, handleevents_never_close}

abbrev all_off : Switches
all_off = record { reading = false; writing = false; edge = false }

abbrev fresh_channel : Channel
fresh_channel = create 7

fresh-InStep : InStep ctl_list registered_list list_documented [] fresh_channel all_off none
unfolding create lookup
fresh-InStep = record { switches = refl; interest = refl; flag = refl }

-- What a Connection does: edge-triggered, then reading, then a reply.
abbrev script : List Call
script = edge_on ∷ reads_on ∷ writes_on ∷ writes_off ∷ []

abbrev half_closed : Report
half_closed = record {
  input = true;
  priority = false;
  output = true;
  error = false;
  hangup = true;
  rdhup = false;
}

run_registers : (run ctl_list script [] fresh_channel).1 ≡ (7, 0x8000_0001) ∷ []
unfolding run call enablereading enablewriting disablewriting setepollet create updatechannel lookup
    insert
run_registers = refl

handleevents_never_close_example :
    handleevents
      (sethappenevents (run ctl_list script [] fresh_channel).2 (report_bits half_closed))
    ≡ readevent ∷ writeevent ∷ []
handleevents_never_close_example =
    handleevents_never_close ctl_list registered_list list_documented script [] fresh_channel
      all_off none half_closed fresh-InStep (λ e. refl)
