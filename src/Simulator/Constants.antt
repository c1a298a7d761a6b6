-- ===== src/Simulator/Constants.antt =====
-- The float constants of the simulator, by their bits: the digits of the constant are in its name.
use payment_recovery_opportu.Models.{Float, bits}

abbrev pub minus_3_5 : Float
minus_3_5 = bits 13838435755002691584

abbrev pub minus_2_5 : Float
minus_2_5 = bits 13836183955189006336

abbrev pub minus_1_5 : Float
minus_1_5 = bits 13832806255468478464

abbrev pub minus_1 : Float
minus_1 = bits 13830554455654793216

abbrev pub minus_0_05 : Float
minus_0_05 = bits 13810738617294363034

abbrev pub float_0 : Float
float_0 = bits 0

abbrev pub float_0_1 : Float
float_0_1 = bits 4591870180066957722

abbrev pub float_0_2 : Float
float_0_2 = bits 4596373779694328218

abbrev pub float_0_4 : Float
float_0_4 = bits 4600877379321698714

abbrev pub float_0_5 : Float
float_0_5 = bits 4602678819172646912

abbrev pub float_1 : Float
float_1 = bits 4607182418800017408

abbrev pub float_1_5 : Float
float_1_5 = bits 4609434218613702656

abbrev pub float_2 : Float
float_2 = bits 4611686018427387904

abbrev pub float_2_5 : Float
float_2_5 = bits 4612811918334230528
