-- ===== src/Drivers/Serial/Tests.antt =====
-- The serial driver's theorems at a port that answers the loop-back and is always empty after.
use rainstorm_os.Base.{refl, true, false, none, [], ltb, ◌==◌, if◌then◌else◌, arith, Returns}
use rainstorm_os.Utils.Sink.{Sinks}
use rainstorm_os.Utils.Sink.Registry.{IsValid}
use rainstorm_os.Drivers.Serial.{Serial, serial_init, serial_write}
use rainstorm_os.Drivers.Serial.Wait.{Written, serial_write-Written}
use rainstorm_os.Drivers.Serial.Setup.{InitResult, serial_init-InitResult}

abbrev no_sinks : Sinks
no_sinks = record { sinks = λ n. none; next = 0; calls = [] }

abbrev com1 : Serial
com1 = record {
  is_initialised = false;
  current_com = 0;
  answers = λ n p. if p == 0x3F8 then 0xAE else 0x60;
  reads = 0;
  sent = [];
  registry = no_sinks;
}

-- Set up, and a port whose first reads find the transmitter full.
abbrev busy : Serial
busy = record com1 {
  is_initialised = true;
  current_com = 0x3F8;
  answers = λ n p. if ltb n 2 then 0 else 0x60;
}

no_sinks-IsValid : IsValid no_sinks
no_sinks-IsValid = record { bounded = omega arith; unused = λ n h. refl }

serial_init-InitResult_example : InitResult com1 0x3F8 (serial_init 0x3F8 com1)
serial_init-InitResult_example = serial_init-InitResult com1 0x3F8 no_sinks-IsValid

serial_write-Written_example : Returns (λ _ t. Written busy 65 t) (serial_write 3 65 busy)
serial_write-Written_example = serial_write-Written 3 65 2 busy refl (omega arith) refl
