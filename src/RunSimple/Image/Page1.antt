-- ===== src/RunSimple/Image/Page1.antt =====
-- run_simple.c, `programinit`, lines 460 to 715: the start-up code, the trap handler and `main`.
use Prim.Native.String.{String}
use mathlib.Core.List.{List, [], ◌∷◌}

unfoldable pub page_1 : List String
page_1 =
    "ff9ff06f535000ef0000006f0100006f" ∷ "80020137305510730985051300000517"
    ∷ "00000193000001130000009319d000ef" ∷ "00000393000003130000029300000213"
    ∷ "00000593000005130000049300000413" ∷ "00000793000007130000069300000613"
    ∷ "00000993000009130000089300000813" ∷ "00000b9300000b1300000a9300000a13"
    ∷ "00000d9300000d1300000c9300000c13" ∷ "00000f9300000f1300000e9300000e13"
    ∷ "00012023f8010113f65ff06f80020137" ∷ "00412823003126230021242300112223"
    ∷ "0281202300712e2300612c2300512a23" ∷ "02c1282302b1262302a1242302912223"
    ∷ "0501202302f12e2302e12c2302d12a23" ∷ "05412823053126230521242305112223"
    ∷ "0781202305712e2305612c2305512a23" ∷ "07c1282307b1262307a1242307912223"
    ∷ "7ffff51707f12e2307e12c2307d12a23" ∷ "0002c5034000233700050293ed450513"
    ∷ "ff1ff06f00a320230005066300128293" ∷ "4000233700050293ed0505137ffff517"
    ∷ "00a3202300050663001282930002c503" ∷ "eb8282937ffff29734202573ff1ff06f"
    ∷ "0005051300b2a42300a2a2230012a023" ∷ "00050313000505130185551300050593"
    ∷ "e98282937ffff29700f5751300435513" ∷ "00a2a023400022b70005450300550533"
    ∷ "00550533e7c282937ffff29700f37513" ∷ "0005851300a2a023400022b700054503"
    ∷ "00435513000503130005051301055513" ∷ "00550533e6c282937ffff29700f57513"
    ∷ "00f3751300a2a023400022b700054503" ∷ "0005450300550533e50282937ffff297"
    ∷ "008555130005851300a2a023400022b7" ∷ "00f57513004355130005031300050513"
    ∷ "0005450300550533e40282937ffff297" ∷ "7ffff29700f3751300a2a023400022b7"
    ∷ "400022b70005450300550533e2428293" ∷ "00050313000505130005851300a2a023"
    ∷ "e18282937ffff29700f5751300435513" ∷ "00a2a023400022b70005450300550533"
    ∷ "00550533dfc282937ffff29700f37513" ∷ "7ffff29700a2a023400022b700054503"
    ∷ "0082a5830042a5030002a083de428293" ∷ "4000233700050293df0505137ffff517"
    ∷ "00a3202300050663001282930002c503" ∷ "dd8282937ffff29734102573ff1ff06f"
    ∷ "0005051300b2a42300a2a2230012a023" ∷ "00050313000505130185551300050593"
    ∷ "db8282937ffff29700f5751300435513" ∷ "00a2a023400022b70005450300550533"
    ∷ "00550533d9c282937ffff29700f37513" ∷ "0005851300a2a023400022b700054503"
    ∷ "00435513000503130005051301055513" ∷ "00550533d8c282937ffff29700f57513"
    ∷ "00f3751300a2a023400022b700054503" ∷ "0005450300550533d70282937ffff297"
    ∷ "008555130005851300a2a023400022b7" ∷ "00f57513004355130005031300050513"
    ∷ "0005450300550533d60282937ffff297" ∷ "7ffff29700f3751300a2a023400022b7"
    ∷ "400022b70005450300550533d4428293" ∷ "00050313000505130005851300a2a023"
    ∷ "d38282937ffff29700f5751300435513" ∷ "00a2a023400022b70005450300550533"
    ∷ "00550533d1c282937ffff29700f37513" ∷ "7ffff29700a2a023400022b700054503"
    ∷ "0082a5830042a5030002a083d0428293" ∷ "4000233700050293d10505137ffff517"
    ∷ "00a3202300050663001282930002c503" ∷ "cf8282937ffff29734302573ff1ff06f"
    ∷ "0005051300b2a42300a2a2230012a023" ∷ "00050313000505130185551300050593"
    ∷ "cd8282937ffff29700f5751300435513" ∷ "00a2a023400022b70005450300550533"
    ∷ "00550533cbc282937ffff29700f37513" ∷ "0005851300a2a023400022b700054503"
    ∷ "00435513000503130005051301055513" ∷ "00550533cac282937ffff29700f57513"
    ∷ "00f3751300a2a023400022b700054503" ∷ "0005450300550533c90282937ffff297"
    ∷ "008555130005851300a2a023400022b7" ∷ "00f57513004355130005031300050513"
    ∷ "0005450300550533c80282937ffff297" ∷ "7ffff29700f3751300a2a023400022b7"
    ∷ "400022b70005450300550533c6428293" ∷ "00050313000505130005851300a2a023"
    ∷ "c58282937ffff29700f5751300435513" ∷ "00a2a023400022b70005450300550533"
    ∷ "00550533c3c282937ffff29700f37513" ∷ "7ffff29700a2a023400022b700054503"
    ∷ "0082a5830042a5030002a083c2428293" ∷ "4000233700050293c30505137ffff517"
    ∷ "00a3202300050663001282930002c503" ∷ "0023d51308000e1300000393ff1ff06f"
    ∷ "00a2a2230012a023c10282937ffff297" ∷ "01855513000505930005051300b2a423"
    ∷ "00f57513004355130005031300050513" ∷ "0005450300550533bf0282937ffff297"
    ∷ "7ffff29700f3751300a2a023400022b7" ∷ "400022b70005450300550533bd428293"
    ∷ "00050513010555130005851300a2a023" ∷ "7ffff29700f575130043551300050313"
    ∷ "400022b70005450300550533bc428293" ∷ "ba8282937ffff29700f3751300a2a023"
    ∷ "00a2a023400022b70005450300550533" ∷ "00050313000505130085551300058513"
    ∷ "b98282937ffff29700f5751300435513" ∷ "00a2a023400022b70005450300550533"
    ∷ "00550533b7c282937ffff29700f37513" ∷ "0005851300a2a023400022b700054503"
    ∷ "00f57513004355130005031300050513" ∷ "0005450300550533b70282937ffff297"
    ∷ "7ffff29700f3751300a2a023400022b7" ∷ "400022b70005450300550533b5428293"
    ∷ "0002a083b3c282937ffff29700a2a023" ∷ "b48505137ffff5170082a5830042a503"
    ∷ "001282930002c5034000233700050293" ∷ "00238533ff1ff06f00a3202300050663"
    ∷ "0012a023b2c282937ffff29700052503" ∷ "000505930005051300b2a42300a2a223"
    ∷ "00435513000503130005051301855513" ∷ "00550533b0c282937ffff29700f57513"
    ∷ "00f3751300a2a023400022b700054503" ∷ "0005450300550533af0282937ffff297"
    ∷ "010555130005851300a2a023400022b7" ∷ "00f57513004355130005031300050513"
    ∷ "0005450300550533ae0282937ffff297" ∷ "7ffff29700f3751300a2a023400022b7"
    ∷ "400022b70005450300550533ac428293" ∷ "00050513008555130005851300a2a023"
    ∷ "7ffff29700f575130043551300050313" ∷ "400022b70005450300550533ab428293"
    ∷ "a98282937ffff29700f3751300a2a023" ∷ "00a2a023400022b70005450300550533"
    ∷ "00435513000503130005051300058513" ∷ "00550533a8c282937ffff29700f57513"
    ∷ "00f3751300a2a023400022b700054503" ∷ "0005450300550533a70282937ffff297"
    ∷ "a58282937ffff29700a2a023400022b7" ∷ "7ffff5170082a5830042a5030002a083"
    ∷ "0002c5034000233700050293a6450513" ∷ "ff1ff06f00a320230005066300128293"
    ∷ "a48505137ffff517cfc39ce300438393" ∷ "001282930002c5034000233700050293"
    ∷ "ed8ff06fff1ff06f00a3202300050663" ∷ "00c12183008121030041208300012003"
    ∷ "01c12383018123030141228301012203" ∷ "02c12583028125030241248302012403"
    ∷ "03c12783038127030341268303012603" ∷ "04c12983048129030441288304012803"
    ∷ "05c12b8305812b0305412a8305012a03" ∷ "06c12d8306812d0306412c8306012c03"
    ∷ "07c12f8307812f0307412e8307012e03" ∷ "800005b7000000003020007308010113"
    ∷ "000787933745859380000737800007b7" ∷ "40f585b3374505133747071380000537"
    ∷ "f8478693000027b70205886340e50533" ∷ "40f8083300d585b3f847879380000837"
    ∷ "00c680230017879300f806b30007c603" ∷ "00e787b3ffc5779300050c63feb798e3"
    ∷ "00008067fef71ce30047071300072023" ∷ "00e5b73300458693004507130c060663"
    ∷ "0016c69300174713fff6079300d536b3" ∷ "00e7f7b30017c79300d767330097b793"
    ∷ "06079a630037f79300b567b308078063" ∷ "00b808330005071300058793ffc67813"
    ∷ "fed72e2300478793004707130007a683" ∷ "00f5873306f60263ffc67793ff0798e3"
    ∷ "010680230017871300f506b300074803" ∷ "00e507330006c68300e586b304c77663"
    ∷ "00f585b302c7fa6300d7002300278793" ∷ "0000806700e7802300f507b30005c703"
    ∷ "001787930005c70300c5863300050793" ∷ "00008067fec598e3fee78fa300158593"
    ∷ "064006930000079300012623ff010113" ∷ "0017879300e1262300f7073300c12703"
    ∷ "bf0101130000806701010113fed798e3" ∷ "0010089340a005330005566300000893"
    ∷ "00a00593000007930008069301010813" ∷ "0046869302b56733000607930080006f"
    ∷ "fee6ae230307071302b5453300178613" ∷ "002617934101071300088e63fe0512e3"
    ∷ "00060793c0e7a02302d0071300f707b3" ∷ "400025b70640069300f8063300279793"
    ∷ "00f7073300c127030000079300012623" ∷ "00062783fed798e30017879300e12623"
    ∷ "0007061300c8066300f5a023ffc60713" ∷ "fc0101130000806741010113fd1ff06f"
    ∷ "03212a2302912c2302812e2301010613" ∷ "00200893001008130006071303010593"
    ∷ "00600393005004130040049300300313" ∷ "00a00e9300900f1300800f9300700293"
    ∷ "080780630300069300f5779300b00e13" ∷ "071788630320069307078c6303100693"
    ∷ "06978063034006930667846303300693" ∷ "047788630360069304878c6303500693"
    ∷ "05f78063038006930457846303700693" ∷ "03d788630610069303e78c6303900693"
    ∷ "0630069300c0091303c7846306200693" ∷ "012788630640069300d0091301278e63"
    ∷ "00d720230657869300f037b3ff278793" ∷ "fe060513f6b716e34045551300470713"
    ∷ "0000079300012623400025b706400693" ∷ "0017879300e1262300f7073300c12703"
    ∷ "00f5a023ffc6061301c62783fed798e3" ∷ "034129030381248303c12403fcc51ce3"
    ∷ "00012623ff0101130000806704010113" ∷ "00f7073300c127030640069300000793"
    ∷ "400027b7fed798e30017879300e12623" ∷ "fc010113000080670101011300a78023"
    ∷ "03c12703064006930000079302012e23" ∷ "fed798e30017879302e12e2300f70733"
    ∷ "02012c2300e7802304800713400027b7" ∷ "00f70733038127030640069300000793"
    ∷ "400027b7fed798e30017879302e12c23" ∷ "0000079302012a2300e7802306500713"
    ∷ "02e12a2300f707330341270306400693" ∷ "06c00713400027b7fed798e300178793"
    ∷ "06400693000007930201282300e78023" ∷ "0017879302e1282300f7073303012703"
    ∷ "00e7802306c00713400027b7fed798e3" ∷ "02c12703064006930000079302012623"
    ∷ "fed798e30017879302e1262300f70733" ∷ "0201242300e7802306f00713400027b7"
    ∷ "00f70733028127030640069300000793" ∷ "400027b7fed798e30017879302e12423"
    ∷ "000007930201222300e7802302c00713" ∷ "02e1222300f707330241270306400693"
    ∷ "05700713400027b7fed798e300178793" ∷ "06400693000007930201202300e78023"
    ∷ "0017879302e1202300f7073302012703" ∷ "00e7802306f00713400027b7fed798e3"
    ∷ "01c12703064006930000079300012e23" ∷ "fed798e30017879300e12e2300f70733"
    ∷ "00012c2300e7802307200713400027b7" ∷ "00f70733018127030640069300000793"
    ∷ "400027b7fed798e30017879300e12c23" ∷ "0000079300012a2300e7802306c00713"
    ∷ "00e12a2300f707330141270306400693" ∷ "00f7002340002737fed798e300178793"
    ∷ "01012703064006930000079300012823" ∷ "fed798e30017879300e1282300f70733"
    ∷ "0001262300e7802302100713400027b7" ∷ "00f7073300c127030640069300000793"
    ∷ "400027b7fed798e30017879300e12623" ∷ "040101130000051300e7802300a00713"
    ∷ "7470656378450a6d34335b1b00008067" ∷ "000000000a2e646573756163206e6f69"
    ∷ "00000000003a65737561636d00000000" ∷ "00000000000000000000000000000000"
    ∷ "62613938373635343332313000000000" ∷ "00000000000000000000000066656463"
    ∷ "62613938373635343332313000000000" ∷ "00000000000000000000000066656463" ∷ []
