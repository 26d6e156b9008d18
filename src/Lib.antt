-- ===== src/Lib.antt =====
-- The native part of the AIS receiver for Android (app/src/main/jni): a radio stick delivers 8-bit I/Q
-- samples, the signal path turns them into two demodulated channels, a decoder turns these into NMEA
-- sentences, and the sentences go out as UDP datagrams. A client may control the tuner over TCP.
--
-- Base          shared names: Boolean tests, C arrays as functions from index to value, lists over
--               native numbers, integers with the wrap of `int16_t` and `int`, `for` loops
-- Dsp           app/src/main/jni/rtl_ais_andro.c: rotate_90 and rotate_m90 (Rotate), fifth_order
--               (FifthOrder), generic_fir and cic_9_tables (GenericFir), downsample and
--               downsample_init (Downsample), multiply, fast_atan2, polar_disc_fast, demodulate
--               and dc_block_filter (Demod), arbitrary_upsample (Upsample), one block through
--               rtlsdr_callback, a round of demod_thread_fn and pre_output (Pipeline), demod_init and
--               stereo_init (Pipeline/Init), and the two threads with their lock, their condition
--               variable and do_exit (Pipeline/Threads); what a stage and a block come to as functions
--               of signals (Downsample/Decimation, Pipeline/Receiver), and what is read of the
--               buffers (the modules named Reads)
-- Decoder       app/src/main/jni/aisdecoder/aisdecoder.c: the socket, the sentences, their assembly
-- Args          app/src/main/jni/RtlAisJava.c: strcpytrimmed, allocate_args_from_string, open
-- Jni           app/src/main/jni/RtlAisJava.c: aprintf, aprintf_stderr, sample_ready and the two
--               announcements, and the references and strings that open takes and gives back
-- Tuning        app/src/main/jni/rtl-sdr/src/convenience/convenience.c: nearest_gain,
--               nearest_bandwidth and the calls that set up a device, verbose_device_search
--               (Devices), verbose_ppm_eeprom (Eeprom), atofs, atoft and atofp (Suffix)
-- Command       app/src/main/jni/rtl_ais_andro.c: set_gain_by_index, set_gain_by_perc, sighandler and
--               command_worker, the latter as a machine driven by what select and recv report
-- Session       app/src/main/jni/rtl_ais_andro.c, rtl_ais_main: the loop over the options (Options), the
--               plan of rates and lengths (Rates), the plan and the signal path together
--               (Rates/Setup, with Rates/Levels, Rates/Stores, Rates/Reads, Rates/Interpolation,
--               Rates/Receiver and, on the two threads, Rates/Threads), the run from the checks to
--               the end and the runs of a process one after the other (Main), and the run together
--               with the search for a device and its opening (Main/Opened)
-- Opening       app/src/main/jni/librtlsdr_andro.c: rtlsdr_open2
-- Filter        app/src/main/jni/aisdecoder/lib/filter.c: the FIR filter of the sound decoder
--
-- A function that changes memory takes the memory and gives it back; a struct is a record. A loop
-- `for (i = a; i < n; i += k)` is `for_loop a k n`, which runs on fuel: n rounds are enough, since each
-- moves `i` by at least one, and `for_loop_inv` shows that it ends beyond n. The loop of
-- arbitrary_upsample runs on fuel too, and len2 + 1 is enough. The threads are a step relation: each
-- byte stored is a step, what a thread does with the lock held by it alone or on its own buffers is
-- one step, and so is each of the two macros with the mutex `ready_m`. Everything that C leaves
-- undefined and that is modelled ends in a result of its own: a read beyond an array is `none`
-- (Command, Tuning), a second free `double_free` (Decoder), a free of an unset pointer `bad_free`
-- (Args). A plan that divides by zero is `undefined` (Session).
-- Signed overflow is taken to wrap.
--
-- Parameters stand for what is not in the repository or belongs to other projects: the results of
-- librtlsdr (`Device`), the system calls of the decoder (`Network`), the logarithm in floating
-- point (`Logarithm`, with its two laws), the arithmetic of `float` (`Floats`), the functions that read a
-- number (`Readers`, `strtol`, `atoi`, `Numbers`), the mixture of two samples in `double` (`mix`),
-- what the calls of a run report (`Calls`), and what libusb reports when a device is opened (`Usb`).
--
-- Not modelled: libusb and librtlsdr with its tuners and tools, which are copies of other projects; the
-- Java application; the lines of the log that the other components write; polar_discriminant, which
-- nothing calls. In the pipeline arbitrary_upsample is a function of its four arguments,
-- which `upsampled` of Upsample is one of.
pub mod Base
pub mod Dsp
pub mod Filter
pub mod Jni
pub mod Opening
pub mod Decoder
pub mod Args
pub mod Tuning
pub mod Command
pub mod Session
