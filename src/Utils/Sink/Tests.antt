-- ===== src/Utils/Sink/Tests.antt =====
-- The theorems of the sinks at a registry with one sink.
use rainstorm_os.Base.{none, some, [], ◌==◌, if◌then◌else◌, arith, Returns}
use rainstorm_os.Utils.Sink.{Sinks, sink_register}
use rainstorm_os.Utils.Sink.Registry.{
  IsValid, Registered, Works, sink_register-Registered, sink_write-sink_register,
}

abbrev one_sink : Sinks
one_sink = record { sinks = λ n. if n == 0 then some 7 else none; next = 1; calls = [] }

one_sink-IsValid : IsValid one_sink
one_sink-IsValid = record { bounded = omega arith; unused = λ n h. ground arith }

sink_register-Registered_example : Registered one_sink 9 (sink_register (some 9) one_sink)
sink_register-Registered_example = sink_register-Registered one_sink one_sink-IsValid 9

sink_write-sink_register_example :
    Returns (Works one_sink one_sink-IsValid 9 65) (sink_register (some 9) one_sink)
sink_write-sink_register_example =
    sink_write-sink_register one_sink one_sink-IsValid 9 65 (omega arith)
