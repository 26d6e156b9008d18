-- ===== src/Dsp.antt =====
-- The signal path of app/src/main/jni/rtl_ais_andro.c: rotation, decimation, demodulation.
pub mod Rotate
pub mod FifthOrder
pub mod GenericFir
pub mod Downsample
pub mod Demod
pub mod Upsample
pub mod Pipeline
pub mod Tests
