-- ===== src/I18n/SimplifiedChinese/Site.antt =====
-- web/lib/i18n/zh-CN.ts: the simplified Chinese texts of the public pages.
use wgtemporary_email.Base.{String, [], ◌∷◌}
use wgtemporary_email.Base.Dict.{Dict}

abbrev pub zh_cn_nav : Dict String
zh_cn_nav =
    ("about", "关于")
    ∷ ("privacy", "隐私")
    ∷ ("api", "API")
    ∷ ("permanentMailbox", "长效邮箱")
    ∷ ("tempMailbox", "临时邮箱")
    ∷ []

abbrev pub zh_cn_home : Dict String
zh_cn_home =
    ("yourTempEmail", "你的临时邮箱")
    ∷ ("readyDesc", "你的临时邮箱已就绪，将在 {time} 后自动删除。")
    ∷ ("loading", "加载中...")
    ∷ ("copy", "复制")
    ∷ ("copied", "已复制")
    ∷ ("newEmail", "新邮箱")
    ∷ ("expiresIn", "{time} 后过期")
    ∷ ("inbox", "收件箱")
    ∷ ("auto", "自动")
    ∷ ("searchEmails", "搜索邮件...")
    ∷ ("clearSearch", "清除搜索")
    ∷ ("noEmailsYet", "暂无邮件")
    ∷ ("autoRefreshingEvery", "每 {sec} 秒自动刷新")
    ∷ ("noSubject", "（无主题）")
    ∷ ("newBadge", "新")
    ∷ ("selectAnEmail", "选择一封邮件")
    ∷ ("viewContents", "选择一封邮件查看内容")
    ∷ ("html", "HTML")
    ∷ ("plain", "纯文本")
    ∷ ("from", "发件人：")
    ∷ ("to", "收件人：")
    ∷ ("date", "日期：")
    ∷ ("dkimValid", "DKIM 有效")
    ∷ ("dkimInvalid", "DKIM 无效")
    ∷ ("spf", "SPF：{v}")
    ∷ ("dmarc", "DMARC：{v}")
    ∷ ("attachmentsCount", "{n} 个附件")
    ∷ ("attachments", "附件")
    ∷ ("noContent", "无内容")
    ∷ ("lastRefreshed", "上次刷新：{time} • 自动刷新已开启")
    ∷ ("footerText", "WGTemporaryEmail - 开源临时邮箱服务")
    ∷ ("dialogTitle", "生成新邮箱")
    ∷ ("dialogDesc", "创建一个新的临时邮箱地址。用户名留空则生成随机地址。")
    ∷ ("customNamePlaceholder", "自定义名称（可选）")
    ∷ ("dialogHint", "留空生成随机邮箱地址，或输入自定义用户名（3-64 字符，字母数字 + . _ -）")
    ∷ ("generateEmail", "生成邮箱")
    ∷ ("creating", "生成中...")
    ∷ ("usernameTaken", "该用户名已被占用，请换一个用户名或留空以生成随机邮箱地址。")
    ∷ ("failedToCreate", "创建邮箱地址失败，请重试。")
    ∷ ("rateLimited", "请求过于频繁（限流按 IP 计算），请等约 1 分钟后再试。")
    ∷ ("failedToLoad", "加载邮件失败，请重试。")
    ∷ ("failedToDelete", "删除邮件失败，请重试。")
    ∷ ("deleteEmailConfirm", "确定删除这封邮件吗？")
    ∷ ("expiredNewAddress", "{old} 已过期。新地址：{new}")
    ∷ ("expiredNow", "已过期，正在为你生成新地址…")
    ∷ []

abbrev pub zh_cn_about : Dict String
zh_cn_about =
    ("aboutTitle", "关于 WGTemporaryEmail")
    ∷ ("aboutDesc", "一个隐私优先的一次性临时邮箱服务，开源、自托管、无广告、无追踪。")
    ∷ (
      "aboutP1",
      "打开首页即可获得一个临时邮箱地址，无需注册、无需提供任何个人信息。用它来接收验证码、注册测试账号、订阅试用，保护你的真实邮箱免受垃圾邮件的骚扰。地址和邮件会在设定的时间后自动删除。",
    )
    ∷ ("aboutP2", "本项目以容器化方式部署（PostgreSQL + FastAPI + Go 邮件服务器 + 网页前端），你可以轻松部署到自己的服务器上运行。")
    ∷ ("feature1T", "即时生成")
    ∷ ("feature1D", "一键生成随机地址，也支持自定义用户名")
    ∷ ("feature2T", "自动过期")
    ∷ ("feature2D", "地址与邮件到期自动清理，不留痕迹")
    ∷ ("feature3T", "安全校验")
    ∷ ("feature3D", "展示 DKIM / SPF / DMARC 校验结果")
    ∷ ("feature4T", "完整邮件支持")
    ∷ ("feature4D", "HTML / 纯文本 / 附件 / 原始邮件下载")
    ∷ ("feature5T", "完全开源")
    ∷ ("feature5D", "源代码公开，可自行审查与二次开发")
    ∷ ("feature6T", "无广告无追踪")
    ∷ ("feature6D", "不投放广告，不运行任何追踪脚本")
    ∷ ("relationTitle", "与源项目的关系")
    ∷ ("relationDesc", "开源精神，站在前人的肩膀上")
    ∷ ("relationP1", "WGTemporaryEmail 不是一个从零开始的项目，它基于以下两个优秀开源项目整合构建：")
    ∷ (
      "relationP2",
      "在上述源项目的基础上，本项目扩展了：中文管理面板（统计、邮件/地址/域名管理、配置热更新）、首次访问配置向导、安全加固（速率限制、XSS 消毒、依赖安全更新）、存储占用上限与自动清理等能力。",
    )
    ∷ ("relationP3", "所有源项目与本项目均采用 MIT 许可证，保留原作者版权声明。感谢 Lm36 的出色工作。")
    ∷ ("sourceTitle", "源代码")
    ∷ ("sourceDesc", "欢迎 Star、Fork 和提交 Issue")
    ∷ ("sourceNote", "问题反馈与功能建议请通过 GitHub Issues 提交。")
    ∷ ("demoLabel", "示范站点")
    ∷ []

abbrev pub zh_cn_privacy : Dict String
zh_cn_privacy =
    ("privacyTitle", "隐私政策")
    ∷ ("privacyDesc", "WGTemporaryEmail 以隐私为设计核心：无需注册、无广告、无追踪。本页说明服务如何存储与处理数据。")
    ∷ ("scopeNote", "本政策适用于本临时邮箱服务实例（以下称\"本服务\"）。")
    ∷ ("collectTitle", "我们收集与存储的数据")
    ∷ ("collectP1", "为了提供收信功能，本服务会在服务器端存储以下内容：")
    ∷ ("collectL1", "你创建的临时邮箱地址及其过期时间")
    ∷ ("collectL2", "发往该地址的邮件，包括发件人、主题、正文与附件")
    ∷ ("collectL3", "该地址对应的随机访问令牌（用于验证你对这个邮箱的访问权）")
    ∷ ("collectP2", "你的浏览器本地（localStorage）会保存当前邮箱地址与令牌，以便下次打开时继续使用。这些信息仅保存在你自己的设备上。")
    ∷ ("retentionTitle", "数据保留与删除")
    ∷ ("retentionL1", "地址与邮件默认保留 24 小时，到期后由系统自动删除（保留时长可能因服务配置而异）")
    ∷ ("permanentMailboxNote", "长效邮箱：地址会一直保留直到您自行删除；其邮件在运营方配置的保留期（默认 30 天）后自动删除。")
    ∷ ("retentionL2", "你可以随时在界面中手动删除邮件")
    ∷ ("retentionL3", "超过单地址邮件数上限时，最早的邮件会被自动清理")
    ∷ ("retentionL4", "删除后的数据不可恢复")
    ∷ ("storageNote", "当全站邮件总量超过配置的存储上限时，最旧的邮件会被自动删除。")
    ∷ ("notCollectTitle", "我们不收集的信息")
    ∷ ("notCollectL1", "无需注册或登录，不要求提供姓名、真实邮箱、手机号等任何个人信息")
    ∷ ("notCollectL2", "不投放广告，不运行任何第三方追踪或统计分析脚本")
    ∷ ("notCollectL3", "不向任何第三方出售、共享或转让数据")
    ∷ ("securityTitle", "邮件内容与安全")
    ∷ ("securityL1", "邮件正文与附件存储于服务端数据库，随邮件一并删除")
    ∷ ("securityL2", "HTML 邮件在渲染前经过净化处理，防止恶意脚本执行")
    ∷ ("securityL3", "访问邮箱需要持有对应的随机访问令牌，请勿将令牌泄露给他人")
    ∷ ("securityL4", "服务会展示 DKIM / SPF / DMARC 校验结果供参考")
    ∷ ("tlsNote", "邮件传输使用 STARTTLS 加密（TLS 1.2/1.3）；网页面板通过 HTTPS 提供服务。")
    ∷ ("disclaimerTitle", "使用建议与免责声明")
    ∷ (
      "disclaimerP1",
      "临时邮箱适合接收验证码、测试注册等一次性场景。请勿将其用于：重要账户的绑定、银行/支付等敏感服务、或接收任何你无法承受丢失的邮件——地址到期后所有邮件将被永久删除。",
    )
    ∷ ("disclaimerP2", "请勿通过临时邮箱发送或接收敏感个人信息。本服务不对数据删除造成的影响承担责任。")
    ∷ ("contactTitle", "联系我们")
    ∷ ("contactP1", "本项目完全开源，源代码见：")
    ∷ ("contactP2", "对隐私政策有疑问或需要删除数据，请通过 GitHub Issues 联系我们。")
    ∷ []

abbrev pub zh_cn_mailbox : Dict String
zh_cn_mailbox =
    ("title", "长效邮箱")
    ∷ ("desc", "邮箱地址永久保留，邮件默认保留 30 天。请妥善保存访问令牌。")
    ∷ ("createTitle", "创建长效邮箱")
    ∷ ("usernamePlaceholder", "yourname")
    ∷ ("createBtn", "创建长效邮箱")
    ∷ ("creating", "创建中...")
    ∷ ("createdNote", "创建成功！请立即保存访问令牌（仅显示这一次）：")
    ∷ ("copyToken", "复制令牌")
    ∷ ("showToken", "显示令牌")
    ∷ ("hideToken", "隐藏令牌")
    ∷ ("copied", "已复制")
    ∷ ("loginTitle", "登录长效邮箱")
    ∷ ("tokenPlaceholder", "输入访问令牌")
    ∷ ("loginBtn", "登录")
    ∷ ("logout", "退出")
    ∷ ("myEmail", "我的邮箱：{email}")
    ∷ ("retentionNote", "邮件默认保留 {days} 天，邮箱地址永久有效")
    ∷ ("noEmails", "暂无邮件")
    ∷ ("noSubject", "（无主题）")
    ∷ ("new", "新")
    ∷ ("noContent", "无内容")
    ∷ ("attachments", "附件")
    ∷ ("deleteEmail", "删除此邮件")
    ∷ ("deleteConfirm", "确定删除这封邮件吗？")
    ∷ ("failedCreate", "创建失败，请重试")
    ∷ ("failedLogin", "令牌无效或邮箱不存在")
    ∷ ("usernameTaken", "该用户名已被占用")
    ∷ ("needUsername", "请输入用户名")
    ∷ []
